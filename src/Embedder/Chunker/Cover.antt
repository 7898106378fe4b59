-- ===== src/Embedder/Chunker/Cover.antt =====
-- nodes/embedder_4070/chunker.py: about the pieces that `_pack` puts into the chunks.
use project_nexus.Prelude.{
  ℕ, ◌+◌, ◌≡◌, refl, sym, ap, ap₂, ◌∙◌, subst, true, not, ◌&&◌, List, [], ◌∷◌, ◌++◌, String, map,
  ltb, leb, filter, append-nil, append_assoc, map-append, if_both, if_known, false_ne_true,
}
use project_nexus.Py.Text.{join, strip, str_truthy}
use project_nexus.Embedder.Chunker.Pack.{
  Packing, is_empty, reverse_onto, tail_loop, seed_of, flush, append, make_room, pack_piece,
  pack_loop, finish, pack_groups, pack,
}

-- A group: the pieces that it repeats from the group before it, and its new ones.
pub record Part : Type 0 where
  pub seed : List String
  pub new : List String

abbrev pub whole : Part → List String
whole part = part.seed ++ part.new

abbrev pub news : List Part → List String
news [] = []
news (part ∷ parts) = part.new ++ news parts

-- `tail` ends the list.
abbrev pub IsTail : List String → List String → Type 0
IsTail tail list = (front : List String) × (front ++ tail ≡ list)

-- Each group begins with the last pieces of the group before it; `before` stands before the first one.
abbrev pub Linked : List String → List Part → Type 0
Linked before [] = Unit
Linked before (part ∷ parts) = IsTail part.seed before × Linked (whole part) parts

-- The groups are those of linked parts whose new pieces are the pieces, in order.
pub record IsPacked (pieces : List String) (groups : List (List String)) : Type 0 where
  pub parts : List Part
  pub made : groups ≡ map whole parts
  pub covers : news parts ≡ pieces
  pub linked : Linked [] parts

last_whole : List String → List Part → List String
last_whole before [] = before
last_whole before (part ∷ parts) = last_whole (whole part) parts

news-append : (xs ys : List Part) → news (xs ++ ys) ≡ news xs ++ news ys
news-append [] ys = refl
news-append (x ∷ xs) ys =
    ap (λ l. x.new ++ l) (news-append xs ys) ∙ sym (append_assoc x.new (news xs) (news ys))

Linked-last :
    (before : List String) (parts : List Part) (part : Part)
    → Linked before parts
    → IsTail part.seed (last_whole before parts)
    → Linked before (parts ++ part ∷ [])
unfolding last_whole
Linked-last before [] part l t = (t, tt)
Linked-last before (x ∷ parts) part l t = (l.0, Linked-last (whole x) parts part l.1 t)

last_whole-last :
    (before : List String) (parts : List Part) (part : Part)
    → last_whole before (parts ++ part ∷ []) ≡ whole part
unfolding last_whole
last_whole-last before [] part = refl
last_whole-last before (x ∷ parts) part = last_whole-last (whole x) parts part

reverse_onto-append : (xs ys : List String) → reverse_onto xs ys ≡ reverse_onto xs [] ++ ys
unfolding reverse_onto
reverse_onto-append [] ys = refl
reverse_onto-append (x ∷ xs) ys =
    reverse_onto-append xs (x ∷ ys)
    ∙ sym (append_assoc (reverse_onto xs []) (x ∷ []) ys)
    ∙ ap (λ l. l ++ ys) (sym (reverse_onto-append xs (x ∷ [])))

reverse_onto-reverse_onto :
    (xs acc ys : List String) → reverse_onto (reverse_onto xs acc) ys ≡ reverse_onto acc (xs ++ ys)
unfolding reverse_onto
reverse_onto-reverse_onto [] acc ys = refl
reverse_onto-reverse_onto (x ∷ xs) acc ys = reverse_onto-reverse_onto xs (x ∷ acc) ys

module _ (tokens : String → ℕ) (target overlap : ℕ) where
  tail_loop-IsTail :
      (before tail : List String) (n : ℕ)
      → IsTail (tail_loop tokens target overlap before tail n).0 (reverse_onto before tail)
  unfolding tail_loop reverse_onto
  tail_loop-IsTail [] tail n = ([], refl)
  tail_loop-IsTail (p ∷ before) tail n =
      if_both {A = List String × ℕ} (λ r. IsTail r.0 (reverse_onto before (p ∷ tail)))
        (leb overlap (n + tokens p))
        (reverse_onto before [], sym (reverse_onto-append before (p ∷ tail)))
        (tail_loop-IsTail before (p ∷ tail) (n + tokens p))

  seed_of-IsTail :
      (current : List String) → IsTail (seed_of tokens target overlap current).0 current
  unfolding seed_of
  seed_of-IsTail current =
      if_both {A = List String × ℕ} (λ r. IsTail r.0 current) (leb overlap 0)
        (current, append-nil current)
        (subst (IsTail (tail_loop tokens target overlap (reverse_onto current []) [] 0).0)
          (reverse_onto-reverse_onto current [] [] ∙ unfold reverse_onto in append-nil current)
          (tail_loop-IsTail (reverse_onto current []) [] 0))

  -- The loop after the pieces `done`: the groups are parts, and the current group would be the next one.
  record IsState (done : List String) (s : Packing) : Type 0 where
    parts : List Part
    next : Part
    made : s.groups ≡ map whole parts
    waits : s.current ≡ whole next
    covers : news parts ++ next.new ≡ done
    linked : Linked [] parts
    tail : IsTail next.seed (last_whole [] parts)

  flush-IsState :
      (done : List String) (s : Packing)
      → IsState done s
      → IsState done (flush tokens target overlap s)
  unfolding flush
  flush-IsState done s h = if_both {A = Packing} (IsState done) (is_empty s.current) h (record {
    parts = h.parts ++ h.next ∷ [];
    next = record { seed = (seed_of tokens target overlap s.current).0; new = [] };
    made = ap₂ (λ gs g. gs ++ g ∷ []) h.made h.waits ∙ sym (map-append whole h.parts (h.next ∷ []));
    waits = sym (append-nil _);
    covers =
        append-nil _
        ∙ news-append h.parts (h.next ∷ [])
        ∙ ap (λ l. news h.parts ++ l) (append-nil h.next.new)
        ∙ h.covers;
    linked = Linked-last [] h.parts h.next h.linked h.tail;
    tail =
        subst (IsTail (seed_of tokens target overlap s.current).0)
          (h.waits ∙ sym (last_whole-last [] h.parts h.next)) (seed_of-IsTail s.current);
  })

  room-IsState :
      (p : String) (done : List String) (s : Packing)
      → IsState done s
      → IsState done (make_room tokens target overlap p s)
  unfolding make_room
  room-IsState p done s h =
      if_both {A = Packing} (IsState done)
        (ltb target (s.current_tokens + tokens p) && not (is_empty s.current))
        (flush-IsState done s h) h

  append-IsState :
      (p : String) (done : List String) (s : Packing)
      → IsState done s
      → IsState (done ++ p ∷ []) (append tokens target overlap p s)
  unfolding append
  append-IsState p done s h = record {
    parts = h.parts;
    next = record { seed = h.next.seed; new = h.next.new ++ p ∷ [] };
    made = h.made;
    waits = ap (λ c. c ++ p ∷ []) h.waits ∙ append_assoc h.next.seed h.next.new (p ∷ []);
    covers = sym (append_assoc (news h.parts) h.next.new (p ∷ [])) ∙ ap (λ l. l ++ p ∷ []) h.covers;
    linked = h.linked;
    tail = h.tail;
  }

  loop-IsState :
      (pieces done : List String) (s : Packing)
      → IsState done s
      → IsState (done ++ pieces) (pack_loop tokens target overlap pieces s)
  unfolding pack_loop pack_piece
  loop-IsState [] done s h = subst (λ l. IsState l s) (sym (append-nil done)) h
  loop-IsState (p ∷ pieces) done s h =
      let s' = pack_piece tokens target overlap p s in
      subst (λ l. IsState l (pack_loop tokens target overlap pieces s'))
        (append_assoc done (p ∷ []) pieces)
        (loop-IsState pieces (done ++ p ∷ []) s'
          (append-IsState p done (make_room tokens target overlap p s) (room-IsState p done s h)))

  nothing_new : (seed new : List String) → is_empty (seed ++ new) ≡ true → new ≡ []
  unfolding is_empty
  nothing_new [] [] h = refl
  nothing_new [] (p ∷ new) h = absurd (false_ne_true h)
  nothing_new (p ∷ seed) new h = absurd (false_ne_true h)

  finish-IsPacked :
      (pieces : List String) (s : Packing)
      → IsState pieces s
      → IsPacked pieces (finish tokens target overlap s)
  unfolding finish
  finish-IsPacked pieces s h =
      if_known {A = List (List String)} (IsPacked pieces) (is_empty s.current)
        (λ none. record {
          parts = h.parts;
          made = h.made;
          covers =
              sym (append-nil (news h.parts))
              ∙ ap (λ l. news h.parts ++ l)
                  (sym (nothing_new h.next.seed h.next.new (ap is_empty (sym h.waits) ∙ none)))
              ∙ h.covers;
          linked = h.linked;
        })
        (λ some. record {
          parts = h.parts ++ h.next ∷ [];
          made =
              ap₂ (λ gs g. gs ++ g ∷ []) h.made h.waits
              ∙ sym (map-append whole h.parts (h.next ∷ []));
          covers =
              news-append h.parts (h.next ∷ [])
              ∙ ap (λ l. news h.parts ++ l) (append-nil h.next.new)
              ∙ h.covers;
          linked = Linked-last [] h.parts h.next h.linked h.tail;
        })

  -- The chunks are the texts of groups of pieces, stripped and without the blank ones, in order. The
  -- groups hold every piece once and in order, apart from the last pieces of a group, with which the
  -- next one may begin.
  pub pack_covers :
      (pieces : List String)
      → (groups : List (List String)) × (pack tokens target overlap pieces
          ≡ filter str_truthy (map (λ g. strip (join "" g)) groups))
        × IsPacked pieces groups
  unfolding pack pack_groups
  pack_covers pieces = (
    pack_groups tokens target overlap pieces,
    refl,
    finish-IsPacked pieces _ (
        loop-IsState pieces [] (record { groups = []; current = []; current_tokens = 0 })
          (record {
            parts = [];
            next = record { seed = []; new = [] };
            made = refl;
            waits = refl;
            covers = refl;
            linked = tt;
            tail = unfold last_whole in ([], refl);
          })),
  )
