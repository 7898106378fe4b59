-- ===== src/Hub/Stm.antt =====
-- The short-term memory of nodes/brainstem_4070: stm_buffer.py, filter.py, and `stm_write` of server.py.
use project_nexus.Prelude.{
  ℕ, zero, suc, ◌+◌, ◌-◌, ◌≡◌, refl, sym, ap, ◌∙◌, Bool, true, false, Option, none, some, List, [],
  ◌∷◌, ◌++◌, String, arith, length, drop, leb, if◌then◌else◌, append-nil, append_assoc,
  length-append,
}
use project_nexus.Py.Text.{strip, str_truthy}
use project_nexus.Py.Dict.{Dict, lookup}
use project_nexus.Py.Value.{Value, str, Fields, obj}
use project_nexus.Hub.Turn.Pipeline.{push}

-- An embedding is the list of its floats' `repr`.
pub record StmItem : Type 0 where
  pub id : String
  pub text : String
  pub embedding : List String
  pub metadata : Fields

-- The deque, oldest first.
pub record StmBuffer : Type 0 where
  pub max_items : ℕ
  pub buffer : List StmItem

-- max_items or settings.max_stm_items
unfoldable pub init : Option ℕ → ℕ → StmBuffer
init none default = record { max_items = default; buffer = [] }
init (some zero) default = record { max_items = default; buffer = [] }
init (some (suc n)) default = record { max_items = suc n; buffer = [] }

unfoldable pub add : StmItem → StmBuffer → StmBuffer
unfolding push
add item b = record b { buffer = push b.max_items b.buffer item }

unfoldable pub is_nonblank : Option Value → Bool
is_nonblank none = false
is_nonblank (some (str text)) = str_truthy (strip text)
is_nonblank (some v) = false

unfoldable pub basic_validation : Dict Value → Bool
unfolding is_nonblank lookup
basic_validation payload = is_nonblank (lookup "text" payload)

pub data Written : Type 0 where
  stored : String → Written
  bad_request bad_gateway : Written

-- after `embedder.embed([text])`, whose `EmbedderError` is `none`
unfoldable pub store_item :
    String → String → Fields → Option (List String) → StmBuffer → Written × StmBuffer
unfolding add
store_item id text metadata none b = (bad_gateway, b)
store_item id text metadata (some embedding) b =
    (stored id, add (record { id = id; text = text; embedding = embedding; metadata = metadata }) b)

-- POST /stm/write; `embed` is the embedder and `id` the uuid.
unfoldable pub stm_write :
    (String → Option (List String)) → String → String → Fields → StmBuffer → Written × StmBuffer
unfolding basic_validation store_item
stm_write embed id text metadata b =
    if basic_validation (("text", str text) ∷ ("metadata", obj metadata) ∷ [])
    then store_item id text metadata (embed text) b
    else (bad_request, b)

module _ {ℓ} {A : Type ℓ} where
  -- the last `n`
  unfoldable pub newest : ℕ → List A → List A
  newest n xs = drop (length xs - n) xs

  drop-append :
      (k : ℕ) (xs ys : List A) → leb k (length xs) ≡ true → drop k xs ++ ys ≡ drop k (xs ++ ys)
  drop-append zero xs ys h = refl
  drop-append (suc k) [] ys h = ground arith
  drop-append (suc k) (x ∷ xs) ys h = drop-append k xs ys (ground arith)

  length-drop : (k : ℕ) (xs : List A) → length (drop k xs) ≡ length xs - k
  length-drop zero xs = omega arith
  length-drop (suc k) [] = omega arith
  length-drop (suc k) (x ∷ xs) = omega (arith, length-drop k xs)

  drop-nil : (k : ℕ) → ◌≡◌ {A = List A} (drop k []) []
  drop-nil zero = refl
  drop-nil (suc k) = refl

  drop-drop : (j k : ℕ) (xs : List A) → drop j (drop k xs) ≡ drop (k + j) xs
  drop-drop j zero xs = ap (λ n. drop n xs) (zero_plus j)
    where
      zero_plus : (n : ℕ) → n ≡ 0 + n
      zero_plus n = omega arith
  drop-drop zero (suc k) [] = sym (drop-nil (suc k + 0))
  drop-drop (suc j) (suc k) [] = sym (drop-nil (suc k + suc j))
  drop-drop j (suc k) (x ∷ xs) = drop-drop j k xs ∙ ap (λ n. drop n (x ∷ xs)) (suc_plus k j)
    where
      suc_plus : (m n : ℕ) → suc (m + n) ≡ suc m + n
      suc_plus m n = omega arith

  newest-push : (n : ℕ) (xs : List A) (x : A) → push n (newest n xs) x ≡ newest n (xs ++ x ∷ [])
  unfolding newest push
  newest-push n xs x =
      let k : ℕ = length xs - n in
      let ys : List A = xs ++ x ∷ [] in
      ap (λ l. drop (length l - n) l) (drop-append k xs (x ∷ []) (within (length xs) n))
      ∙ ap (λ m. drop (m - n) (drop k ys)) (length-drop k ys)
      ∙ drop-drop (length ys - k - n) k ys
      ∙ ap (λ m. drop m ys) (same_cut (length xs) (length ys) n (length-append xs (x ∷ [])))
    where
      within : (l n : ℕ) → leb (l - n) l ≡ true
      within l n = ground arith

      same_cut : (l l' n : ℕ) → l' ≡ l + 1 → (l - n) + (l' - (l - n) - n) ≡ l' - n
      same_cut l l' n e = omega (arith, e)

-- The items written one after another.
unfoldable pub add_all : List StmItem → StmBuffer → StmBuffer
add_all [] b = b
add_all (x ∷ xs) b = add_all xs (add x b)

add_all-newest :
    (n : ℕ) (xs before : List StmItem) (b : StmBuffer)
    → b.max_items ≡ n
    → b.buffer ≡ newest n before
    → (add_all xs b).buffer ≡ newest n (before ++ xs)
unfolding add_all add
add_all-newest n [] before b m e = e ∙ ap (newest n) (sym (append-nil before))
add_all-newest n (x ∷ xs) before b m e =
    add_all-newest n xs (before ++ x ∷ []) (add x b) m
      (ap (λ k. push k b.buffer x) m ∙ ap (λ l. push n l x) e ∙ newest-push n before x)
    ∙ ap (newest n) (append_assoc before (x ∷ []) xs)

-- However many items are written, the buffer holds the newest ones, in order, as many as it has room
-- for.
pub buffer_holds_newest :
    (n : ℕ) (items : List StmItem)
    → (add_all items (init (some (suc n)) 0)).buffer ≡ newest (suc n) items
unfolding init newest
buffer_holds_newest n items =
    add_all-newest (suc n) items [] (init (some (suc n)) 0) refl (sym (drop-nil (0 - suc n)))
