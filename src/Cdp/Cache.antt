-- ===== src/Cdp/Cache.antt =====
-- internal/infrastructure/cdp/cache.go: the cache of member IDs and affiliations, over any key-value
-- bucket.
pub mod Laws
pub mod Refinement
use lfx_v2_persona_service.Prelude.{
  ℕ, ◌-◌, ◌*◌, ◌^◌, String, ◌<>◌, ◌==◌, Bool, true, false, Option, none, some, Slice, leb,
  if◌then◌else◌, ◌≡◌, Error, wrap, Result, ok, err,
}
use lfx_v2_persona_service.Json.{Bytes, document}
use lfx_v2_persona_service.Json.Decode.{unmarshal, decode_slice}
use lfx_v2_persona_service.Json.Encode.{encode_slice}
use lfx_v2_persona_service.Runtime.{Runtime, as_string}
use lfx_v2_persona_service.Cdp.{ProjectAffiliation}
use lfx_v2_persona_service.Cdp.Wire.{decode_affiliation, empty_affiliation, encode_affiliation}

pub record Entry : Type 0 where
  pub value : Bytes
  pub created : ℕ

-- `kv.Get`: an entry, `jetstream.ErrKeyNotFound`, or another error.
pub data Lookup : Type 0 where
  found : Entry → Lookup
  key_not_found : Lookup
  failed : Error → Lookup

-- A bucket of JetStream: `get` and `put` at a time; `put` with the error that it returns, if any.
pub record KeyValue : Type 1 where
  pub State : Type 0
  pub get : State → ℕ → String → Lookup
  pub put : State → ℕ → String → Bytes → State × Option Error

-- What a lookup finds of an entry in a bucket whose entries live for `ttl`.
abbrev pub lookup_of : ℕ → ℕ → Entry → Lookup
lookup_of ttl later e = if leb ttl (later - e.created) then key_not_found else found e

-- In a bucket with a time to live, a put that succeeds is what the key has until it expires, and no
-- other key changes.
pub record IsLawful (S : KeyValue) (ttl : ℕ) : Type 0 where
  pub get-put :
      (s : S.State) (now later : ℕ) (k : String) (v : Bytes) (j : String)
      → (S.put s now k v).1 ≡ none
      → S.get (S.put s now k v).0 later j ≡ (
          if k == j
          then lookup_of ttl later (record { value = v; created = now })
          else S.get s later j)

pub record CacheResult : Type 0 where
  pub hit : Bool
  pub stale : Bool

abbrev pub miss : CacheResult
miss = record { hit = false; stale = false }

-- Ten minutes, in nanoseconds.
abbrev pub fresh_threshold : ℕ
fresh_threshold = 600 * 10 ^ 9

-- The result for an entry, by its age. A creation time ahead of the clock is age 0 here.
abbrev pub hit_at : ℕ → Entry → CacheResult
hit_at now e = record { hit = true; stale = leb fresh_threshold (now - e.created) }

abbrev pub member_id_key : String → String
member_id_key username = "cdp.member_id." <> username

abbrev pub affiliations_key : String → String
affiliations_key member_id = "cdp.affiliations." <> member_id

-- A lookup returns a value, its result and an error.
abbrev pub Cached : Type 0 → Type 0
Cached A = record { value : A; result : CacheResult; error : Option Error }

module _ (rt : Runtime) (S : KeyValue) where
  -- `none` is a cache with no bucket.
  abbrev pub Cache : Type 0
  Cache = Option S.State

  unfoldable pub get_member_id : Cache → ℕ → String → Cached String
  get_member_id none now username = record { value = ""; result = miss; error = none }
  get_member_id (some s) now username = elim (S.get s now (member_id_key username)) [
    | found e ↦ record { value = as_string rt e.value; result = hit_at now e; error = none }
    | key_not_found ↦ record { value = ""; result = miss; error = none }
    | failed e ↦ record {
      value = "";
      result = miss;
      error = some (wrap ("kv get " <> member_id_key username) e);
    }
  ]

  unfoldable pub put_member_id : Cache → ℕ → String → String → Cache
  put_member_id none now username member_id = none
  put_member_id (some s) now username member_id =
      some (S.put s now (member_id_key username) (Bytes.text member_id)).0

  -- An entry that does not unmarshal is a miss.
  unfoldable pub get_affiliations : Cache → ℕ → String → Cached (Slice ProjectAffiliation)
  unfolding unmarshal
  get_affiliations none now member_id = record { value = none; result = miss; error = none }
  get_affiliations (some s) now member_id = elim (S.get s now (affiliations_key member_id)) [
    | found e ↦
        elim (unmarshal rt (decode_slice empty_affiliation (decode_affiliation rt)) none e.value) [
          | ok affs ↦ record { value = affs; result = hit_at now e; error = none }
          | err _ ↦ record { value = none; result = miss; error = none }
        ]
    | key_not_found ↦ record { value = none; result = miss; error = none }
    | failed e ↦ record {
      value = none;
      result = miss;
      error = some (wrap ("kv get " <> affiliations_key member_id) e);
    }
  ]

  unfoldable pub put_affiliations : Cache → ℕ → String → Slice ProjectAffiliation → Cache
  put_affiliations none now member_id affs = none
  put_affiliations (some s) now member_id affs =
      some
        (S.put s now (affiliations_key member_id)
          (document (encode_slice encode_affiliation affs))).0
