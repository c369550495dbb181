-- ===== src/Cdp/Cache/Refinement.antt =====
-- The cache of internal/infrastructure/cdp/cache.go as two memories that share nothing.
use text.Mathlib.TextLemmas.{append_cancel_left}
use lfx_v2_persona_service.Prelude.{
  ℕ, Error, String, ◌<>◌, ◌==◌, eq_iff, ne_of_==, ==_of_ne, Bool-cases, inl, inr, Option, none,
  some, List, [], ◌∷◌, Slice, if◌then◌else◌, ◌≡◌, ◌≢◌, refl, sym, ap, ◌∙◌, elements,
}
use lfx_v2_persona_service.Json.{Bytes, document}
use lfx_v2_persona_service.Json.Encode.{encode_slice}
use lfx_v2_persona_service.Cdp.Wire.{encode_affiliation}
use lfx_v2_persona_service.Runtime.{Runtime}
use lfx_v2_persona_service.Cdp.{ProjectAffiliation}
use lfx_v2_persona_service.Cdp.Wire.RoundTrip.{CountsFit}
use lfx_v2_persona_service.Cdp.Cache.{
  KeyValue, IsLawful, Cache, Cached, member_id_key, affiliations_key, get_member_id, put_member_id,
  get_affiliations, put_affiliations, key_not_found,
}
use lfx_v2_persona_service.Cdp.Cache.Laws.{
  recall, get_member_id-put_member_id, get_affiliations-put_affiliations,
  get_affiliations-put_member_id, get_member_id-put_affiliations,
}

-- What a memory has for a name: a value, and the time at which it was written.
abbrev pub Timed : Type 0 → Type 0
Timed A = String → Option (A × ℕ)

pub record Memory : Type 0 where
  pub ids : Timed String
  pub affiliations : Timed (Slice ProjectAffiliation)

abbrev pub forgotten : Memory
forgotten = record { ids = λ u. none; affiliations = λ m. none }

-- A memory with one more value.
abbrev pub learn : {A : Type 0} → Timed A → ℕ → String → A → Timed A
learn f now k a j = if k == j then some (a, now) else f j

-- A call of one of the two puts.
pub data Write : Type 0 where
  member_id_of : ℕ → String → String → Write
  affiliations_of : ℕ → String → Slice ProjectAffiliation → Write

-- The counts of affiliations that are written fit a Go int.
abbrev pub IsEncodable : Write → Type 0
IsEncodable (member_id_of now u id) = Unit
IsEncodable (affiliations_of now m affs) = CountsFit (elements affs)

abbrev pub remember : Write → Memory → Memory
remember (member_id_of now u id) m = record m { ids = learn m.ids now u id }
remember (affiliations_of now k affs) m = record m {
  affiliations = learn m.affiliations now k affs;
}

-- Writes, in order.
abbrev pub remember_all : List Write → Memory → Memory
remember_all [] m = m
remember_all (w ∷ ws) m = remember_all ws (remember w m)

key-injective : (p u v : String) → u ≢ v → p <> u ≢ p <> v
key-injective p u v ne e = ne (append_cancel_left p u v e)

-- A lookup follows a memory that learns if it does so at the name that is learned and at every other.
follows :
    {A : Type 0} (ttl : ℕ) (f : Timed A) (nothing a : A) (now t : ℕ) (k j : String)
    (x : String → Cached A)
    → x k ≡ recall ttl nothing now (some (a, t))
    → (k ≢ j → x j ≡ recall ttl nothing now (f j))
    → x j ≡ recall ttl nothing now (learn f t k a j)
follows ttl f nothing a now t k j x same other = elim (Bool-cases (k == j)) [
  | inl e ↦ rw (e) (ap x (sym ((eq_iff k j).0 e)) ∙ same)
  | inr e ↦ rw (e) (other (ne_of_== k j e))
]

module _ (rt : Runtime) (S : KeyValue) where
  -- The same calls on the cache.
  unfoldable pub write : Write → Cache rt S → Cache rt S
  unfolding put_member_id put_affiliations
  write (member_id_of now u id) c = put_member_id rt S c now u id
  write (affiliations_of now m affs) c = put_affiliations rt S c now m affs

  unfoldable pub write_all : List Write → Cache rt S → Cache rt S
  unfolding write
  write_all [] c = c
  write_all (w ∷ ws) c = write_all ws (write w c)

  -- The put of a write, on the bucket itself.
  abbrev pub put_of : Write → S.State → S.State × Option Error
  put_of (member_id_of now u id) s = S.put s now (member_id_key u) (Bytes.text id)
  put_of (affiliations_of now k affs) s =
      S.put s now (affiliations_key k) (document (encode_slice encode_affiliation affs))

  -- Each put of a sequence succeeds in the state that it finds, and the counts that it writes fit a Go
  -- int.
  abbrev pub AllStored : List Write → S.State → Type 0
  AllStored [] s = Unit
  AllStored (w ∷ ws) s = IsEncodable w × ((put_of w s).1 ≡ none) × AllStored ws (put_of w s).0

  -- The bucket answers, at any time, that the key is not there.
  abbrev pub IsAbsent : S.State → String → Type 0
  IsAbsent s k = (now : ℕ) → S.get s now k ≡ key_not_found

  -- Every lookup in the cache of a name that was absent from a bucket answers what the memory recalls.
  abbrev pub Represents : ℕ → S.State → Cache rt S → Memory → Type 0
  Represents ttl first c m =
      ((now : ℕ) (u : String)
        → IsAbsent first (member_id_key u)
        → get_member_id rt S c now u ≡ recall ttl "" now (m.ids u))
      × ((now : ℕ) (k : String)
          → IsAbsent first (affiliations_key k)
          → get_affiliations rt S c now k ≡ recall ttl none now (m.affiliations k))

  empty-Represents : (ttl : ℕ) (s : S.State) → Represents ttl s (some s) forgotten
  unfolding get_member_id get_affiliations
  empty-Represents ttl s =
      (λ now u e. rw (get_member_id, e now) refl, λ now k e. rw (get_affiliations, e now) refl)

  module _ (ttl : ℕ) (L : IsLawful S ttl) (first : S.State) where
    -- A put under another key of the same family changes no lookup.
    other_id :
        (s : S.State) (then_ now : ℕ) (u v id : String)
        → (S.put s then_ (member_id_key u) (Bytes.text id)).1 ≡ none
        → u ≢ v
        → get_member_id rt S (put_member_id rt S (some s) then_ u id) now v
          ≡ get_member_id rt S (some s) now v
    unfolding get_member_id put_member_id
    other_id s then_ now u v id e ne =
        rw
          (
            L.get-put s then_ now (member_id_key u) (Bytes.text id) (member_id_key v) e,
            ==_of_ne (member_id_key u) (member_id_key v) (key-injective "cdp.member_id." u v ne),
          )
          refl

    other_affiliations :
        (s : S.State) (then_ now : ℕ) (u v : String) (affs : Slice ProjectAffiliation)
        → (S.put s then_ (affiliations_key u) (document (encode_slice encode_affiliation affs))).1
          ≡ none
        → u ≢ v
        → get_affiliations rt S (put_affiliations rt S (some s) then_ u affs) now v
          ≡ get_affiliations rt S (some s) now v
    unfolding get_affiliations put_affiliations
    other_affiliations s then_ now u v affs e ne =
        rw
          (
            L.get-put s then_ now (affiliations_key u) _ (affiliations_key v) e,
            ==_of_ne (affiliations_key u) (affiliations_key v)
                (key-injective "cdp.affiliations." u v ne),
          )
          refl

    write-Represents :
        (w : Write) (s : S.State) (m : Memory)
        → IsEncodable w
        → (put_of w s).1 ≡ none
        → Represents ttl first (some s) m
        → Represents ttl first (write w (some s)) (remember w m)
    unfolding write
    write-Represents (member_id_of t u id) s m h e (ids, affs) = (
      λ now v absent.
          follows ttl m.ids "" id now t u v
            (λ j. get_member_id rt S (put_member_id rt S (some s) t u id) now j)
            (get_member_id-put_member_id rt S ttl L s t now u id e)
            (λ ne. other_id s t now u v id e ne ∙ ids now v absent),
      λ now k absent.
          get_affiliations-put_member_id rt S ttl L s t now u id k e ∙ affs now k absent,
    )
    write-Represents (affiliations_of t k a) s m h e (ids, affs) = (
      λ now v absent. get_member_id-put_affiliations rt S ttl L s t now k v a e ∙ ids now v absent,
      λ now j absent.
          follows ttl m.affiliations none a now t k j
            (λ i. get_affiliations rt S (put_affiliations rt S (some s) t k a) now i)
            (get_affiliations-put_affiliations rt S ttl L s t now k a h e)
            (λ ne. other_affiliations s t now k j a e ne ∙ affs now j absent),
    )

    write_all-Represents :
        (ws : List Write) (s : S.State) (m : Memory)
        → AllStored ws s
        → Represents ttl first (some s) m
        → Represents ttl first (write_all ws (some s)) (remember_all ws m)
    unfolding write_all put_member_id put_affiliations
    write_all-Represents [] s m h r = r
    write_all-Represents (member_id_of t u id ∷ ws) s m (h, e, hs) r =
        write_all-Represents ws _ _ hs (write-Represents (member_id_of t u id) s m h e r)
    write_all-Represents (affiliations_of t k a ∷ ws) s m (h, e, hs) r =
        write_all-Represents ws _ _ hs (write-Represents (affiliations_of t k a) s m h e r)

  -- The cache refines two memories that share nothing. In a bucket whose entries live for some time, after
  -- any sequence of puts that succeed, of affiliations whose counts fit a Go int, every lookup, at every
  -- time, of a name that the bucket did not have answers without an error: a miss where nothing was put
  -- under the name or the last put has expired, and else what was last put there and whether it is ten
  -- minutes old.
  pub write_all-refines :
      (ttl : ℕ)
      → IsLawful S ttl
      → (ws : List Write) (s : S.State) → AllStored ws s
      → Represents ttl s (write_all ws (some s)) (remember_all ws forgotten)
  write_all-refines ttl L ws s h =
      write_all-Represents ttl L s ws s forgotten h (empty-Represents ttl s)
