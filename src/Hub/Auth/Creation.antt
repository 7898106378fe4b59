-- ===== src/Hub/Auth/Creation.antt =====
-- nodes/brainstem_4070/auth.py: about requests after the creation of a token.
use project_nexus.Prelude.{
  none_ne_some, ℕ, ◌≡◌, refl, sym, ap, Bool, true, false, not, ◌||◌, Option, none, some, List, [],
  ◌∷◌, ◌++◌, map, some_injective, String, ◌==◌, nat_eq, leb, any, if_both, inl, inr, Option-cases,
  subst,
}
use project_nexus.Py.Text.{str_truthy, strip, str_len}
use project_nexus.Hub.Auth.Token.{Kdf, verify_token, mint_token, looks_like_token, parse_bearer}
use project_nexus.Hub.Auth.Store.{
  TokenEntry, Content, holds, TokenStore, reload_from, reload_if_changed, flush, used, or_here,
  walk, after_walk, verify, granted, require_token, access_of, Created, created, add_entry,
  create_in, create, entry_of,
}
use project_nexus.Hub.Auth.Visits.{Visit, visit, visit_all}
use project_nexus.Hub.Auth.Lifecycle.{nat_eq_refl, access-store}
use project_nexus.Hub.Auth.Minted.{
  verify_own, mint-not_blank, mint-looks_like_token, walk_last, created_injective, value_error_ne,
  IsKdf,
}

-- The memory is that of the file.
abbrev Anchored : TokenStore → Type 0
Anchored s = (m : ℕ) × (c : Content) × (s.disk ≡ some (m, c)) × (nat_eq m s.mtime ≡ true)

-- The last entry has this hash and this name.
abbrev Ends : String → String → List TokenEntry → Type 0
Ends h n es =
    (front : List TokenEntry) × (e : TokenEntry) × (es ≡ front ++ e ∷ [])
    × (e.hash ≡ h)
    × (e.name ≡ n)

Ends-cons : (h n : String) (x : TokenEntry) (es : List TokenEntry) → Ends h n es → Ends h n (x ∷ es)
Ends-cons h n x es (front, e, same, hash, name) = (x ∷ front, e, ap (◌∷◌ x) same, hash, name)

or_here-Ends :
    (h n : String) (here : Bool) (now : String) (x : TokenEntry) (es : List TokenEntry)
    (r : Option TokenEntry × List TokenEntry)
    → Ends h n es
    → Ends h n r.1
    → Ends h n (or_here here now x es r).1
unfolding or_here
or_here-Ends h n here now x es (some m, es') k l = Ends-cons h n x es' l
or_here-Ends h n true now x es (none, es') k l = Ends-cons h n (used now x) es k
or_here-Ends h n false now x es (none, es') k l = Ends-cons h n x es k

alone-Ends :
    (h n : String) (here : Bool) (now : String) (e : TokenEntry)
    → e.hash ≡ h
    → e.name ≡ n
    → Ends h n (or_here here now e [] (none, [])).1
unfolding or_here used
alone-Ends h n true now e hash name = ([], used now e, refl, hash, name)
alone-Ends h n false now e hash name = ([], e, refl, hash, name)

walk-Ends :
    (h n : String) (kdf : Kdf) (now token : String) (front : List TokenEntry) (e : TokenEntry)
    → e.hash ≡ h
    → e.name ≡ n
    → Ends h n (walk kdf now token (front ++ e ∷ [])).1
unfolding walk
walk-Ends h n kdf now token [] e hash name =
    alone-Ends h n (verify_token kdf e.hash token) now e hash name
walk-Ends h n kdf now token (x ∷ front) e hash name =
    or_here-Ends h n (verify_token kdf x.hash token) now x (front ++ e ∷ [])
      (walk kdf now token (front ++ e ∷ [])) (front, e, refl, hash, name)
      (walk-Ends h n kdf now token front e hash name)

-- What a creation leaves, and every request after it keeps.
abbrev Keeps : String → String → TokenStore → Type 0
Keeps h n s = Anchored s × Ends h n s.entries

Anchored-reload : (s : TokenStore) → Anchored s → reload_if_changed false s ≡ s
unfolding reload_if_changed reload_from
Anchored-reload s (m, c, disk, same) = rw (disk, same) refl

after_walk-Keeps :
    (h n : String) (written : Option ℕ) (s : TokenStore) (r : Option TokenEntry × List TokenEntry)
    → Keeps h n s
    → Ends h n r.1
    → Keeps h n (after_walk written s r).1
unfolding after_walk flush
after_walk-Keeps h n written s (none, es) k l = k
after_walk-Keeps h n none s (some e, es) k l = (k.0, l)
after_walk-Keeps h n (some t) s (some e, es) k l =
    ((t, holds (map some es), refl, nat_eq_refl t), l)

verify-Keeps :
    (h n : String) (kdf : Kdf) (written : Option ℕ) (now token : String) (s : TokenStore)
    → Keeps h n s
    → Keeps h n (verify kdf written now s token).1
unfolding verify
verify-Keeps h n kdf written now token s k =
    let (front, e, same, hash, name) = k.1 in
    if_both {A = Option TokenEntry × TokenStore} (λ x. Keeps h n x.1) (looks_like_token token)
      (rw (Anchored-reload s k.0) (
        after_walk-Keeps h n written s _ k (
          subst (λ es. Ends h n (walk kdf now token es).1) (sym same)
            (walk-Ends h n kdf now token front e hash name))))
      k

visit-Keeps :
    (h n : String) (kdf : Kdf) (v : Visit) (s : TokenStore)
    → Keeps h n s
    → Keeps h n (visit kdf v s)
unfolding visit require_token
visit-Keeps h n kdf v s k = elim (Option-cases (parse_bearer v.header)) [
  | inl absent ↦ rw (absent, visit) k
  | inr (token, there) ↦
      rw (there, visit)
        (subst (Keeps h n) (sym (access-store (verify kdf v.written v.now s token)))
          (verify-Keeps h n kdf v.written v.now token s k))
]

visits-Keeps :
    (h n : String) (kdf : Kdf) (vs : List Visit) (s : TokenStore)
    → Keeps h n s
    → Keeps h n (visit_all kdf vs s)
unfolding visit_all
visits-Keeps h n kdf [] s k = k
visits-Keeps h n kdf (v ∷ vs) s k = visits-Keeps h n kdf vs _ (visit-Keeps h n kdf v s k)

walked :
    (written : Option ℕ) (s : TokenStore) (e : TokenEntry) (r : Option TokenEntry × List TokenEntry)
    → r.0 ≡ some e
    → (access_of (after_walk written s r)).0 ≡ granted e
unfolding after_walk access_of
walked written s e (none, es) h = absurd (none_ne_some h)
walked written s e (some m, es) h = ap granted (some_injective h)

verify-granted :
    (h n token : String) (kdf : Kdf) (written : Option ℕ) (now : String) (s : TokenStore)
    → looks_like_token token ≡ true
    → verify_token kdf h token ≡ true
    → Keeps h n s
    → (e : TokenEntry) × ((access_of (verify kdf written now s token)).0 ≡ granted e) × (e.name ≡ n)
unfolding verify used
verify-granted h n token kdf written now s looks passes k =
    let (front, e, same, hash, name) = k.1 in
    (
      used now e,
      rw (looks, Anchored-reload s k.0)
          (subst
            (λ es.
              (access_of (after_walk written s (walk kdf now token es))).0 ≡ granted (used now e))
            (sym same)
            (walked written s (used now e) (walk kdf now token (front ++ e ∷ [])) (
              walk_last kdf now token front e
                (subst (λ x. verify_token kdf x token ≡ true) (sym hash) passes)))),
      name,
    )

-- The bearer of a token is let in under the name of the store's last entry, which has its hash.
Keeps-granted :
    (h n token : String) (kdf : Kdf) (written : Option ℕ) (now : String) (s : TokenStore)
    (header : Option String)
    → parse_bearer header ≡ some token
    → looks_like_token token ≡ true
    → verify_token kdf h token ≡ true
    → Keeps h n s
    → (e : TokenEntry) × ((require_token kdf written now s header).0 ≡ granted e) × (e.name ≡ n)
unfolding require_token
Keeps-granted h n token kdf written now s header there looks passes k =
    rw (there, require_token) (verify-granted h n token kdf written now s looks passes k)

-- What a creation makes sure of, of the token and of the store after it.
abbrev LetsIn : Kdf → String → TokenEntry → TokenStore → Type 0
LetsIn kdf token e s =
    (looks_like_token token ≡ true) × (verify_token kdf e.hash token ≡ true) × Keeps e.hash e.name s

create-LetsIn :
    (kdf : Kdf) (m : ℕ) (salt now random name token : String) (s : TokenStore) (e : TokenEntry)
    → IsKdf kdf
    → leb 20 (str_len random) ≡ true
    → (create kdf (some m) salt now random s name).0 ≡ created token e
    → LetsIn kdf token e (create kdf (some m) salt now random s name).1
unfolding create create_in add_entry entry_of flush
create-LetsIn kdf m salt now random name token s e law long =
    if_both {A = Created × TokenStore} (λ r. r.0 ≡ created token e → LetsIn kdf token e r.1)
      (not (str_truthy name) || not (str_truthy (strip name))) (λ h. absurd (value_error_ne h))
      (if_both {A = Created × TokenStore} (λ r. r.0 ≡ created token e → LetsIn kdf token e r.1)
        (any (λ x. x.name == strip name) (reload_if_changed false s).entries)
        (λ h. absurd (value_error_ne h))
        (λ h.
          let entry : TokenEntry = entry_of kdf salt now (strip name) (mint_token random) in
          let r : TokenStore = reload_if_changed false s in
          let s' : TokenStore = flush (some m) (record r { entries = r.entries ++ entry ∷ [] }) in
          let (same_token, same_entry) = created_injective h in
          let made : LetsIn kdf (mint_token random) entry s' = (
            mint-looks_like_token random long,
            verify_own kdf salt (mint_token random) law (mint-not_blank random),
            (
              (m, holds (map some (r.entries ++ entry ∷ [])), refl, nat_eq_refl m),
              (r.entries, entry, refl, refl, refl),
            ),
          ) in
          subst (λ t. LetsIn kdf t e s') same_token
            (subst (λ x. LetsIn kdf (mint_token random) x s') same_entry made)))

-- A created token, whose entry was written to the file, gets its bearer in under the name of the entry
-- from then on: after any requests, whether or not their uses could be written to the file, when nobody
-- else writes the file and no token is created or revoked. `secrets.token_urlsafe` gives at least 20
-- characters.
pub created_gets_in :
    (kdf : Kdf) (m : ℕ) (salt now random name token : String) (s : TokenStore) (e : TokenEntry)
    (visits : List Visit) (written : Option ℕ) (now' : String) (header : Option String)
    → IsKdf kdf
    → leb 20 (str_len random) ≡ true
    → (create kdf (some m) salt now random s name).0 ≡ created token e
    → parse_bearer header ≡ some token
    → (e' : TokenEntry) × ((require_token kdf written now'
          (visit_all kdf visits (create kdf (some m) salt now random s name).1)
          header).0
        ≡ granted e')
      × (e'.name ≡ e.name)
created_gets_in kdf m salt now random name token s e visits written now' header law long made
      there =
    let (looks, passes, keeps) = create-LetsIn kdf m salt now random name token s e law long made in
    Keeps-granted e.hash e.name token kdf written now' _ header there looks passes
      (visits-Keeps e.hash e.name kdf visits _ keeps)
