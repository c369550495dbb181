-- ===== src/Log/Attributes.antt =====
-- What contexts of pkg/log/log.go hold after others were made from the same one.
use lfx_v2_persona_service.Prelude.{
  ℕ, zero, suc, ◌+◌, ◌<◌, Bool, true, false, some, List, [], ◌∷◌, ◌++◌, ltb, same_num,
  if◌then◌else◌, ◌≡◌, refl, sym, ap, ◌∙◌, arith,
}
use mathlib.Core.Path.{ap₂, subst}
use lfx_v2_persona_service.Log.{
  Attr, Heap, Attrs, write, cells, attrs_of, append, Context, append_ctx, handle,
}

cells-cong : (f g : ℕ → Attr) (n : ℕ) → ((i : ℕ) → i < n → f i ≡ g i) → cells f n ≡ cells g n
unfolding cells
cells-cong f g zero h = refl
cells-cong f g (suc n) h =
    ap₂ (λ l a. l ++ a ∷ []) (cells-cong f g n (λ i small. h i (omega (arith, small))))
      (h n (omega arith))

same_num_refl : (n : ℕ) → same_num n n ≡ true
same_num_refl n = ground arith

same_num_of_lt : (m n : ℕ) → m < n → same_num n m ≡ false
same_num_of_lt m n h = ground (arith, h)

write_here : (f : ℕ → ℕ → Attr) (a i : ℕ) (v : Attr) → write f a i v a i ≡ v
write_here f a i v = rw (same_num_refl a, same_num_refl i) refl

write_below : (f : ℕ → ℕ → Attr) (a i : ℕ) (v : Attr) (j : ℕ) → j < i → write f a i v a j ≡ f a j
write_below f a i v j h = rw (same_num_of_lt j i h, same_num_refl a) refl

-- The cells below a write, and the cell written.
cells-write :
    (f : ℕ → ℕ → Attr) (a n : ℕ) (v : Attr)
    → cells (write f a n v a) (suc n) ≡ cells (f a) n ++ v ∷ []
unfolding cells
cells-write f a n v =
    ap₂ (λ l x. l ++ x ∷ [])
      (cells-cong (write f a n v a) (f a) n (λ i small. write_below f a n v i small))
      (write_here f a n v)

cells-copy :
    (g f : ℕ → Attr) (n : ℕ) (v : Attr)
    → ((j : ℕ) → g j ≡ (if same_num n j then v else f j))
    → cells g (suc n) ≡ cells f n ++ v ∷ []
unfolding cells
cells-copy g f n v e =
    ap₂ (λ l x. l ++ x ∷ [])
      (cells-cong g f n
        (λ j small. e j ∙ ap (λ b. if b then v else f j) (same_num_of_lt j n small)))
      (e n ∙ ap (λ b. if b then v else f n) (same_num_refl n))

module _ (grow : ℕ → ℕ) (h : Heap) (v : Attrs) (a : Attr) where
  in_place :
      ltb v.len v.cap ≡ true
      → append grow h v a
        ≡ (record h { cell = write h.cell v.array v.len a }, record v { len = suc v.len })
  unfolding append
  in_place e = rw (append, e) refl

  -- The cells after a copy.
  abbrev copied : Heap
  copied = record {
    next = h.next + 1;
    cell = λ c j.
        if same_num h.next c
        then (if same_num v.len j then a else h.cell v.array j)
        else h.cell c j;
  }

  copy :
      ltb v.len v.cap ≡ false
      → append grow h v a
        ≡ (copied, record { array = h.next; len = suc v.len; cap = grow (suc v.len) })
  unfolding append
  copy e = rw (append, e) refl

-- What both contexts hold.
abbrev pub Both : Heap → Context → Context → List Attr → List Attr → Type 0
Both h c d l m = (handle h c [] ≡ l) × (handle h d [] ≡ m)

module _ (grow : ℕ → ℕ) (h : Heap) (v : Attrs) (a b : Attr) where
  -- From the two appends to the two contexts.
  from_appends :
      (p q : Heap × Attrs) (l m : List Attr)
      → append grow h v a ≡ p
      → append grow p.0 v b ≡ q
      → (attrs_of q.0 p.1 ≡ l) × (attrs_of q.0 q.1 ≡ m)
      → let first = append_ctx grow h (some v) a in
        let second = append_ctx grow first.0 (some v) b in Both second.0 first.1 second.1 l m
  unfolding append_ctx handle
  from_appends p q l m e f facts =
      subst (λ p. let q = append grow p.0 v b in Both q.0 (some p.1) (some q.1) l m) (sym e)
        (subst (λ q. Both q.0 (some p.1) (some q.1) l m) (sym f) facts)

  shared :
      ltb v.len v.cap ≡ true
      → let first = append_ctx grow h (some v) a in
        let second = append_ctx grow first.0 (some v) b in
        Both second.0 first.1 second.1 (attrs_of h v ++ b ∷ []) (attrs_of h v ++ b ∷ [])
  shared e =
      let f = write h.cell v.array v.len a in
      let below : cells (f v.array) v.len ≡ attrs_of h v =
        cells-cong (f v.array) (h.cell v.array) v.len
          (λ i small. write_below h.cell v.array v.len a i small) in
      let held = cells-write f v.array v.len b ∙ ap (λ l. l ++ b ∷ []) below in
      from_appends _ _ _ _ (in_place grow h v a e) (in_place grow (record h { cell = f }) v b e)
        (held, held)

  apart :
      v.array < h.next
      → ltb v.len v.cap ≡ false
      → let first = append_ctx grow h (some v) a in
        let second = append_ctx grow first.0 (some v) b in
        Both second.0 first.1 second.1 (attrs_of h v ++ a ∷ []) (attrs_of h v ++ b ∷ [])
  apart fresh e =
      let h1 = copied grow h v a in
      let h2 = copied grow h1 v b in
      from_appends _ _ _ _ (copy grow h v a e) (copy grow h1 v b e) (
        cells-copy (h2.cell h.next) (h.cell v.array) v.len a (λ j. ground (arith, fresh)),
        cells-copy (h2.cell (h.next + 1)) (h.cell v.array) v.len b (λ j. ground (arith, fresh)),
      )

  -- Two contexts made one after the other from the same one, whose array is allocated, hold its
  -- attributes and their own; but while the capacity of its slice lasts, the first of them holds the
  -- attribute of the second in place of its own.
  pub append_ctx_twice :
      v.array < h.next
      → let first = append_ctx grow h (some v) a in
        let second = append_ctx grow first.0 (some v) b in
        Both second.0 first.1 second.1
          (attrs_of h v ++ (if ltb v.len v.cap then b else a) ∷ [])
          (attrs_of h v ++ b ∷ [])
  append_ctx_twice fresh = by_capacity (ltb v.len v.cap) refl
    where
      by_capacity :
          (r : Bool)
          → ltb v.len v.cap ≡ r
          → let first = append_ctx grow h (some v) a in
            let second = append_ctx grow first.0 (some v) b in
            Both second.0 first.1 second.1
              (attrs_of h v ++ (if r then b else a) ∷ [])
              (attrs_of h v ++ b ∷ [])
      by_capacity true e = shared e
      by_capacity false e = apart fresh e
