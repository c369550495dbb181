-- ===== src/Log.antt =====
-- pkg/log/log.go: attributes in a context, with the arrays that Go's slices share, and the options of
-- the log.
pub mod Attributes
pub mod Options
use lfx_v2_persona_service.Prelude.{
  ℕ, zero, suc, ◌+◌, String, ◌==◌, Bool, false, ◌||◌, ◌&&◌, Option, none, some, List, [], ◌∷◌, ◌++◌,
  ltb, same_num, if◌then◌else◌,
}

-- `slog.Attr`
pub record Attr : Type 0 where
  pub key : String
  pub value : String

-- The backing arrays allocated so far: the cells of array `a` are `cell a`.
pub record Heap : Type 0 where
  pub next : ℕ
  pub cell : ℕ → ℕ → Attr

-- A `[]slog.Attr`: an array, a length and a capacity.
pub record Attrs : Type 0 where
  pub array : ℕ
  pub len : ℕ
  pub cap : ℕ

abbrev pub write : (ℕ → ℕ → Attr) → ℕ → ℕ → Attr → ℕ → ℕ → Attr
write f a i v b j = if same_num a b && same_num i j then v else f b j

-- What a slice holds.
unfoldable pub cells : (ℕ → Attr) → ℕ → List Attr
cells f zero = []
cells f (suc n) = cells f n ++ f n ∷ []

abbrev pub attrs_of : Heap → Attrs → List Attr
attrs_of h v = cells (h.cell v.array) v.len

-- `append(v, attr)`: in place while the capacity lasts, else into a new array with a copy of the old
-- cells, whose capacity Go's runtime chooses, `grow` of the length needed.
unfoldable pub append : (ℕ → ℕ) → Heap → Attrs → Attr → Heap × Attrs
append grow h v attr =
    if ltb v.len v.cap
    then (record h { cell = write h.cell v.array v.len attr }, record v { len = suc v.len })
    else (
      record {
        next = h.next + 1;
        cell = λ b j.
            if same_num h.next b
            then (if same_num v.len j then attr else h.cell v.array j)
            else h.cell b j;
      },
      record { array = h.next; len = suc v.len; cap = grow (suc v.len) },
    )

-- The attributes of a context: `none` when it carries none.
abbrev pub Context : Type 0
Context = Option Attrs

abbrev pub empty_attrs : Attrs
empty_attrs = record { array = 0; len = 0; cap = 0 }

-- `AppendCtx`: the heap after it and the new context.
unfoldable pub append_ctx : (ℕ → ℕ) → Heap → Context → Attr → Heap × Context
unfolding append
append_ctx grow h (some v) attr = let (h', v') = append grow h v attr in (h', some v')
append_ctx grow h none attr = let (h', v') = append grow h empty_attrs attr in (h', some v')

-- `Handle`: the attributes of the record that the next handler gets.
unfoldable pub handle : Heap → Context → List Attr → List Attr
handle h none attrs = attrs
handle h (some v) attrs = attrs ++ attrs_of h v

pub data Level : Type 0 where
  debug info warn : Level

-- The level of `LOG_LEVEL`.
unfoldable pub log_level : String → Level
log_level text =
    if text == "debug"
    then debug
    else if text == "warn"
    then warn
    else if text == "info"
    then info
    else debug

-- The switch of `LOG_ADD_SOURCE`.
unfoldable pub add_source : String → Bool
add_source text = if text == "true" || text == "false" then text == "true" else false
