-- ===== src/Mailbox/Queue.antt =====
-- What the mailbox promises: it is one queue, in the order of arrival, whatever part of it has been
-- drained, and a tagged pop takes the oldest message of its tag and leaves the others in order.
use mathlib.Core.List.{reverse-append}
use swarmrt.Base.{
  add_32, sub_32, ◌%◌, ◌^◌, ℕ, ◌≡◌, refl, List, [], ◌∷◌, ◌++◌, reverse, append-nil, append_assoc,
  none, some, arith, list_laws, ◌==◌, length, Bool-cases, Option-cases, inl, inr, select,
  length-append,
}
use swarmrt.Mailbox.{
  Msg, Mailbox, push, turn, append_all, drain, pop_first, pop_head, take_tagged, pop_tagged,
}

-- All messages of a mailbox in the order of their arrival.
abbrev pub contents : Mailbox → List Msg
contents mb = mb.queue ++ reverse mb.sig

abbrev pub IsCounted : Mailbox → Type 0
IsCounted mb = mb.count ≡ length mb.queue % 2 ^ 32

abbrev pub with_tag : ℕ → List Msg → List Msg
with_tag t = select (λ m. m.tag == t)

pub turn_lem : (chain acc : List Msg) → turn chain acc ≡ reverse chain ++ acc
unfolding turn
turn_lem [] acc = refl
turn_lem (m ∷ chain) acc =
    rw (turn_lem chain (m ∷ acc), reverse-append (m ∷ []) chain) (simp list_laws)

-- The count behind as many messages.
abbrev pub counted : List Msg → ℕ → ℕ
counted [] n = n
counted (m ∷ ms) n = counted ms (add_32 n 1)

pub append_all_lem :
    (chain : List Msg) (mb : Mailbox)
    → append_all chain mb ≡ record mb { queue = mb.queue ++ chain; count = counted chain mb.count }
unfolding append_all
append_all_lem [] mb = rw append-nil (ground arith)
append_all_lem (m ∷ chain) mb = rw (append_all_lem chain _, append_assoc) (ground arith)

-- A push adds its message behind all others, drained or not.
pub contents-push : (m : Msg) (mb : Mailbox) → contents (push m mb) ≡ contents mb ++ (m ∷ [])
unfolding push
contents-push m mb = rw (reverse-append (m ∷ []) mb.sig) (simp list_laws)

-- A drain empties the signal stack, and moves no message out of its place in the queue.
pub drain_lem :
    (mb : Mailbox)
    → drain mb ≡ record { sig = []; queue = contents mb; count = counted (reverse mb.sig) mb.count }
unfolding drain
drain_lem mb =
    rw (append_all_lem (turn mb.sig []) (record mb { sig = [] }), turn_lem mb.sig [], append-nil)

-- What a pop of the oldest message does.
pub pop_first_lem :
    {mb mb' : Mailbox} {m : Msg}
    → pop_first mb ≡ some (m, mb')
    → (mb.queue ≡ m ∷ mb'.queue) × (mb'.sig ≡ mb.sig) × (IsCounted mb → IsCounted mb')
unfolding pop_first
pop_first_lem {mb} h = pop_head_lem mb.queue refl h
  where
    pop_head_lem :
        (q : List Msg) {mb' : Mailbox} {m : Msg}
        → mb.queue ≡ q
        → pop_head q mb ≡ some (m, mb')
        → (mb.queue ≡ m ∷ mb'.queue) × (mb'.sig ≡ mb.sig) × (IsCounted mb → IsCounted mb')
    pop_head_lem [] e h = cc
    pop_head_lem (n ∷ rest) e h = ground arith

pub pop_first-none : (mb : Mailbox) → pop_first mb ≡ none → mb.queue ≡ []
unfolding pop_first
pop_first-none mb h = ground arith

-- The oldest message of a tag, between the messages of other tags before it and the rest.
pub record Split (t : ℕ) (q : List Msg) (m : Msg) (rest : List Msg) : Type 0 where
  pub before : List Msg
  pub behind : List Msg
  pub whole : q ≡ before ++ (m ∷ behind)
  pub others : rest ≡ before ++ behind
  pub tagged : m.tag ≡ t
  pub oldest : with_tag t before ≡ []

pub take_tagged-Split :
    (t : ℕ) (q : List Msg) {m : Msg} {rest : List Msg}
    → take_tagged t q ≡ some (m, rest)
    → Split t q m rest
unfolding take_tagged select
take_tagged-Split t [] h = cc
take_tagged-Split t (x ∷ q) {m} {rest} h = elim (Bool-cases (x.tag == t)) [
  | inl e ↦ record {
    before = [];
    behind = q;
    whole = ground arith;
    others = ground arith;
    tagged = ground arith;
    oldest = refl;
  }
  | inr ne ↦ elim (Option-cases (take_tagged t q)) [
    | inl gone ↦ absurd (ground arith)
    | inr ((n, others), found) ↦
        let s = take_tagged-Split t q found in
        let e : (n ≡ m) × (x ∷ others ≡ rest) = ground arith in
        record {
          before = x ∷ s.before;
          behind = s.behind;
          whole = ground (arith, s.whole);
          others = ground (arith, s.others);
          tagged = ground (arith, s.tagged);
          oldest = rw ne s.oldest;
        }
  ]
]

pub take_tagged-none : (t : ℕ) (q : List Msg) → take_tagged t q ≡ none → with_tag t q ≡ []
unfolding take_tagged select
take_tagged-none t [] h = refl
take_tagged-none t (x ∷ q) h = ground (arith, take_tagged-none t q)

-- What a pop of the oldest message of a tag does.
pub pop_tagged_lem :
    (t : ℕ) {mb mb' : Mailbox} {m : Msg}
    → pop_tagged t mb ≡ some (m, mb')
    → Split t mb.queue m mb'.queue × (mb'.sig ≡ mb.sig) × (IsCounted mb → IsCounted mb')
unfolding pop_tagged
pop_tagged_lem t {mb} {mb'} {m} h = elim (Option-cases (take_tagged t mb.queue)) [
  | inl gone ↦ absurd (ground arith)
  | inr ((n, rest), found) ↦
      let s = take_tagged-Split t mb.queue found in
      let e : (n ≡ m) × (rest ≡ mb'.queue) × (mb'.sig ≡ mb.sig) × (mb'.count ≡ sub_32 mb.count 1) =
        ground arith in
      (
        ground (arith, s),
        e.2,
        λ c. ground (
          arith,
          s.whole,
          s.others,
          length-append s.before s.behind,
          length-append s.before (m ∷ s.behind),
        ),
      )
]

pub pop_tagged-none : (t : ℕ) (mb : Mailbox) → pop_tagged t mb ≡ none → with_tag t mb.queue ≡ []
unfolding pop_tagged
pop_tagged-none t mb h = ground (arith, take_tagged-none t mb.queue)
