-- ===== src/Channel/Handlers.antt =====
-- The handler table of app/ChannelMsgProxy.cpp.
use playground.Prelude.{
  ℕ, ◌<◌, ◌≡◌, ◌≢◌, ◌⊎◌, inl, inr, ◌&&◌, List, [], ◌∷◌, ◌++◌, none, some, refl, arith, leb, ◌==◌,
  if◌then◌else◌, Option-cases,
}
use playground.Prelude.Map.{lookup, insert, lookup-insert}
use playground.Prelude.Words.{pos}
use playground.Channel.{
  Proxy, match_segment, find_segment, find_handler, subscribe_single_msg, subscribe_continuous_msg,
  clashes,
}

find_segment-append :
    (segs : List ((ℕ × ℕ) × ℕ)) (seg : ℕ × ℕ) (h id : ℕ)
    → find_segment (segs ++ (seg, h) ∷ []) id ≡ elim (find_segment segs id) [
      | some k ↦ some k
      | none ↦ if match_segment seg id then some h else none
    ]
unfolding find_segment
find_segment-append [] seg h id = ground arith
find_segment-append ((s, k) ∷ segs) seg h id = ground (arith, find_segment-append segs seg h id)

-- A range subscription that is accepted gives its handler to every id of the range that had none,
-- and changes the handler of no other id.
pub find_handler-subscribe_continuous :
    (p q : Proxy) (from end handler id : ℕ)
    → subscribe_continuous_msg p from end handler ≡ (pos 0, q)
    → find_handler q id ≡ elim (find_handler p id) [
      | some k ↦ some k
      | none ↦ if leb from id && leb id end then some handler else none
    ]
unfolding subscribe_continuous_msg find_handler match_segment
find_handler-subscribe_continuous p q from end handler id e =
    ground (arith, find_segment-append p.segments (from, end) handler id)

-- A single subscription is refused by its assertion for an id that has a single handler. For any
-- other id it is accepted; the id then has the new handler, and the handler of every other id is
-- as before.
pub find_handler-subscribe_single :
    (p : Proxy) (id handler : ℕ)
    → ((lookup id p.handlers ≢ none) × (subscribe_single_msg p id handler ≡ none))
      ⊎ ((lookup id p.handlers ≡ none)
          × (q : Proxy) × (subscribe_single_msg p id handler ≡ some q)
          × ((j : ℕ) → find_handler q j ≡ (if id == j then some handler else find_handler p j)))
unfolding subscribe_single_msg find_handler
find_handler-subscribe_single p id handler = elim (Option-cases (lookup id p.handlers)) [
  | inr (k, e) ↦ inl (λ n. ground arith, rw (e, subscribe_single_msg) refl)
  | inl e ↦ inr (
    e,
    record p { handlers = insert id handler p.handlers },
    rw (e, subscribe_single_msg) refl,
    λ j. ground (arith, lookup-insert id j handler p.handlers),
  )
]

-- Where the only segment is one that a new range contains with room on both sides, the
-- subscription of the new range is accepted.
pub subscribe_continuous_overlap :
    (p : Proxy) (seg : ℕ × ℕ) (k from end handler : ℕ)
    → p.segments ≡ (seg, k) ∷ []
    → from < seg.0
    → seg.1 < end
    → (q : Proxy) × (subscribe_continuous_msg p from end handler ≡ (pos 0, q))
unfolding subscribe_continuous_msg clashes match_segment
subscribe_continuous_overlap p seg k from end handler e lo hi =
    (record p { segments = p.segments ++ ((from, end), handler) ∷ [] }, ground arith)
