-- ===== src/Stream/Blocks.antt =====
-- crates/translator/src/stream_state.rs: what a client sees of the blocks.
use chenni_x_api.Prelude.Tests.{◌==◌, ==_refl, if◌then◌else◌, Bool-cases, Option-cases}
use chenni_x_api.Prelude.{
  ◌≡◌, refl, ℕ, suc, inl, inr, String, Bool, true, ◌&&◌, Option, none, some, List, [], ◌∷◌, ◌++◌,
  arith,
}
use chenni_x_api.Stream.ToClaude.{
  BlockKind, text, thinking, is_kind, Event, message_start, content_block_start, text_delta,
  thinking_delta, input_json_delta, content_block_stop, message_delta, message_stop, StreamState,
  Emits, ◌then_emit◌, close_current_block, open_block, ensure_block,
}

-- What a client keeps: has the message started, the index of the next or the open block, and the
-- kind of the open block.
pub record View : Type 0 where
  pub started : Bool
  pub index : ℕ
  pub open_kind : Option BlockKind

-- A client that checks the protocol of the blocks: a message starts once, a block starts at the next
-- index while none is open, text and thinking go to the open block of their kind, arguments carry
-- the current index, and the open block alone is stopped. `none` is a violation.
abbrev pub accept : Event → View → Option View
accept (message_start id model) v =
    if v.started then none else some (record v { started = true; index = 0 })
accept (content_block_start i kind id name) v = elim v.open_kind [
  | none ↦ if v.started && i == v.index then some (record v { open_kind = some kind }) else none
  | some _ ↦ none
]
accept (text_delta i t) v = if is_kind text v.open_kind && i == v.index then some v else none
accept (thinking_delta i t) v =
    if is_kind thinking v.open_kind && i == v.index then some v else none
accept (input_json_delta i t) v = if i == v.index then some v else none
accept (content_block_stop i) v = elim v.open_kind [
  | none ↦ none
  | some _ ↦
      if i == v.index then some (record v { index = suc v.index; open_kind = none }) else none
]
accept (message_delta r n) v = some v
accept message_stop v = some v

abbrev pub accept_all : List Event → View → Option View
accept_all [] v = some v
accept_all (e ∷ es) v = elim (accept e v) [ none ↦ none | some v' ↦ accept_all es v' ]

abbrev pub view_of : StreamState → View
view_of s = record {
  started = s.started;
  index = s.content_block_index;
  open_kind = s.current_block_type;
}

-- The events take the client from the view of one state to that of the other, and the message has
-- started.
abbrev pub Shows : StreamState → Emits → Type 0
Shows s (s', es) = (accept_all es (view_of s) ≡ some (view_of s')) × (s'.started ≡ true)

pub accept_all-append :
    (es fs : List Event) (u v w : View)
    → accept_all es u ≡ some v
    → accept_all fs v ≡ some w
    → accept_all (es ++ fs) u ≡ some w
accept_all-append [] fs u v w h k = ground arith
accept_all-append (e ∷ es) fs u v w h k = elim (Option-cases (accept e u)) [
  | inl x ↦ ground arith
  | inr (u', x) ↦ ground (arith, accept_all-append es fs u' v w)
]

pub Shows-then :
    (s : StreamState) (m : Emits) (f : StreamState → Emits)
    → Shows s m
    → Shows m.0 (f m.0)
    → Shows s (m then_emit f)
Shows-then s (s', es) f h k =
    (accept_all-append es (f s').1 (view_of s) (view_of s') (view_of (f s').0) h.0 k.0, k.1)

pub close-Shows : (s : StreamState) → s.started ≡ true → Shows s (close_current_block s)
unfolding close_current_block
close-Shows s h = ground (arith, ==_refl s.content_block_index)

open-Shows :
    (kind : BlockKind) (id name : String) (s : StreamState)
    → s.started ≡ true
    → s.current_block_type ≡ none
    → Shows s (open_block kind id name s)
unfolding open_block
open-Shows kind id name s h k = ground (arith, ==_refl s.content_block_index)

pub close-none : (s : StreamState) → (close_current_block s).0.current_block_type ≡ none
unfolding close_current_block
close-none s = ground arith

pub reopen-Shows :
    (kind : BlockKind) (id name : String) (s : StreamState)
    → s.started ≡ true
    → Shows s (close_current_block s then_emit open_block kind id name)
reopen-Shows kind id name s h =
    let closed = close-Shows s h in
    Shows-then s (close_current_block s) (open_block kind id name) closed
      (open-Shows kind id name (close_current_block s).0 closed.1 (close-none s))

pub stay-Shows : (s : StreamState) → s.started ≡ true → Shows s (s, [])
stay-Shows s h = (refl, h)

reopened :
    (kind : BlockKind) (id name : String) (s : StreamState)
    → (close_current_block s then_emit open_block kind id name).0.current_block_type ≡ some kind
unfolding open_block
reopened kind id name s = refl

pub ensure-Shows :
    (kind : BlockKind) (s : StreamState) → s.started ≡ true → Shows s (ensure_block kind s)
unfolding ensure_block
ensure-Shows kind s h = elim (Bool-cases (is_kind kind s.current_block_type)) [
  | inl k ↦ rw k (stay-Shows s h)
  | inr k ↦ rw k (reopen-Shows kind "" "" s h)
]

pub ensured-thinking :
    (s : StreamState) → is_kind thinking (ensure_block thinking s).0.current_block_type ≡ true
unfolding ensure_block open_block
ensured-thinking s = ground arith

pub ensured-text :
    (s : StreamState) → is_kind text (ensure_block text s).0.current_block_type ≡ true
unfolding ensure_block open_block
ensured-text s = ground arith
