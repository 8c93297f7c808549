-- ===== src/Server/Consistent.antt =====
-- What holds of a generic server of src/swarmrt_otp.c and of its clients between their steps.
use swarmrt.Base.{
  reverse, ℕ, ◌+◌, ◌%◌, ◌^◌, ◌≤◌, ◌<◌, ◌≡◌, ◌∙◌, ◌≢◌, inl, inr, List, [], ◌∷◌, ◌++◌, some, ◌==◌,
  append-nil, arith, All, All-append, Bool-cases, ==_refl, ==_iff,
}
use swarmrt.Registry.{update}
use swarmrt.Mailbox.{Msg, Mailbox, drain, pop_first, pop_tagged}
use swarmrt.Mailbox.Queue.{
  counted, contents, contents-push, drain_lem, pop_first_lem, pop_tagged_lem,
}
use swarmrt.Server.{
  CallReply, Callbacks, CallMsg, System, first_ref, call_tag, send, call_proc, give_up,
}

-- A value that the callback for calls has returned for this call, in some state of the server.
pub record Answers (cbs : Callbacks) (call : CallMsg) (v : ℕ) : Type 0 where
  pub handler : ℕ → ℕ → ℕ → CallReply
  pub present : cbs.handle_call ≡ some handler
  pub state : ℕ
  pub reply : v ≡ (handler state call.from call.payload).reply

module _ (cbs : Callbacks) where
  -- What is true of each message in the mailbox of `p`: a call is one that was made, and a reply
  -- answers the call of its reference, which `p` has made.
  pub record Good (calls : ℕ → CallMsg) (n p : ℕ) (m : Msg) : Type 0 where
    pub known : m.tag ≡ call_tag → m.payload < n
    pub answers :
        first_ref ≤ m.tag
        → (a : ℕ) × (a < n)
          × ((calls a).ref ≡ m.tag)
          × ((calls a).from ≡ p)
          × Answers cbs (calls a) m.payload

  -- The calls that have been made have references of their own, a client waits on a call of its own,
  -- and all mailboxes are good.
  pub record IsConsistent (w : System) : Type 0 where
    pub low : first_ref ≤ w.next_ref
    pub made :
        (a : ℕ) → a < w.next_call → (first_ref ≤ (w.calls a).ref) × ((w.calls a).ref < w.next_ref)
    pub distinct :
        (a b : ℕ) → a < w.next_call → b < w.next_call → (w.calls a).ref ≡ (w.calls b).ref → a ≡ b
    pub waits :
        (p : ℕ) (call : CallMsg)
        → w.waiting p ≡ some call
        → (a : ℕ) × (a < w.next_call) × (w.calls a ≡ call) × (call.from ≡ p)
    pub mail : (p : ℕ) → All (Good w.calls w.next_call p) (contents (w.box p))

  All-behind :
      (P : Msg → Type 0) (before : List Msg) (m : Msg) (behind : List Msg)
      → All P (before ++ (m ∷ behind))
      → P m × All P (before ++ behind)
  All-behind P [] m behind h = h
  All-behind P (x ∷ before) m behind h =
      let (a, b) = All-behind P before m behind h.1 in (a, (h.0, b))

  All-mono : (P Q : Msg → Type 0) (ms : List Msg) → ((m : Msg) → P m → Q m) → All P ms → All Q ms
  All-mono P Q [] f h = tt
  All-mono P Q (m ∷ ms) f h = (f m h.0, All-mono P Q ms f h.1)

  -- A mailbox is exchanged for a good one.
  pub box-IsConsistent :
      (p : ℕ) (mb : Mailbox) (w : System)
      → All (Good w.calls w.next_call p) (contents mb)
      → IsConsistent w
      → IsConsistent (record w { box = update w.box p mb })
  box-IsConsistent p mb w good v = record {
    low = v.low;
    made = v.made;
    distinct = v.distinct;
    waits = v.waits;
    mail = λ q. elim (Bool-cases (p == q)) [
      | inl e ↦ rw e (rw ((==_iff p q).0 e) at good)
      | inr e ↦ rw e (v.mail q)
    ];
  }

  pub send-IsConsistent :
      (p to tag payload : ℕ) (w : System)
      → Good w.calls w.next_call to (record { tag = tag; payload = payload; from_pid = w.pid p })
      → IsConsistent w
      → IsConsistent (send p to tag payload w)
  unfolding send
  send-IsConsistent p to tag payload w good v =
      box-IsConsistent to _ w
        (rw contents-push
          (All-append (Good w.calls w.next_call to) (contents (w.box to)) _ (v.mail to) (good, tt)))
        v

  update-old :
      (calls : ℕ → CallMsg) (n a : ℕ) (call : CallMsg) → a < n → update calls n call a ≡ calls a
  update-old calls n a call less = ground arith

  Good-later :
      (calls : ℕ → CallMsg) (n p : ℕ) (m : Msg) (call : CallMsg)
      → Good calls n p m
      → Good (update calls n call) (n + 1) p m
  Good-later calls n p m call good = record {
    known = λ e. omega (arith, good.known e);
    answers = λ high.
        let (a, less, ref, own, ans) = good.answers high in
        let same = update-old calls n a call less in
        (a, omega (arith, less), rw same ref, rw same own, rw same ans);
  }

  -- A call that has been made, with its reference and its address.
  made-IsConsistent :
      (p request : ℕ) (w : System)
      → w.next_ref + 1 < 2 ^ 64
      → IsConsistent w
      → (let call : CallMsg = record { ref = w.next_ref; from = p; payload = request } in
          IsConsistent (record w {
            next_ref = (w.next_ref + 1) % 2 ^ 64;
            calls = update w.calls w.next_call call;
            next_call = w.next_call + 1;
            waiting = update w.waiting p (some call);
          }))
  made-IsConsistent p request w room v = record {
    low = ground (arith, v.low, room);
    made = λ a less. ground (arith, v.made a, room, less, v.low);
    distinct = λ a b la lb e. ground (arith, v.made a, v.made b, v.distinct a b, la, lb, e);
    waits = λ q call h. elim (Bool-cases (p == q)) [
      | inl e ↦
          let new : CallMsg = record { ref = w.next_ref; from = p; payload = request } in
          let is_new : new ≡ call = ground (arith, h) in
          (w.next_call, omega arith, rw (==_refl w.next_call) is_new, ground (arith, is_new))
      | inr ne ↦
          let (a, less, is_call, own) = v.waits q call (ground arith) in
          (a, omega (arith, less), update-old w.calls w.next_call a _ less ∙ is_call, own)
    ];
    mail = λ q.
        All-mono _ _ (contents (w.box q)) (λ m good. Good-later w.calls w.next_call q m _ good)
          (v.mail q);
  }

  pub call_proc-IsConsistent :
      (p request : ℕ) (w : System)
      → w.next_ref + 1 < 2 ^ 64
      → IsConsistent w
      → IsConsistent (call_proc p request w)
  unfolding call_proc
  call_proc-IsConsistent p request w room v =
      send-IsConsistent p w.server.self call_tag w.next_call _
        (record { known = λ e. omega arith; answers = λ high. absurd (omega (arith, high)) })
        (made-IsConsistent p request w room v)

  -- A message that is neither a call nor has the tag of a reply.
  pub plain-Good :
      (calls : ℕ → CallMsg) (n p : ℕ) (m : Msg)
      → m.tag < first_ref
      → m.tag ≢ call_tag
      → Good calls n p m
  plain-Good calls n p m small differs = record {
    known = λ e. absurd (differs e);
    answers = λ high. absurd (omega (arith, small, high));
  }

  -- The state of the server and the memory of casts do not count.
  pub same-IsConsistent :
      (w w' : System)
      → w'.next_ref ≡ w.next_ref
      → w'.calls ≡ w.calls
      → w'.next_call ≡ w.next_call
      → w'.waiting ≡ w.waiting
      → w'.box ≡ w.box
      → IsConsistent w
      → IsConsistent w'
  same-IsConsistent w w' a b c d e v = record {
    low = rw a v.low;
    made = rw (a, b, c) v.made;
    distinct = rw (b, c) v.distinct;
    waits = rw (b, c, d) v.waits;
    mail = rw (b, c, e) v.mail;
  }

  -- A pop by tag takes one good message and leaves good ones.
  pub pop_tagged-Good :
      (P : Msg → Type 0) (t : ℕ) (mb mb' : Mailbox) (m : Msg)
      → All P (contents mb)
      → pop_tagged t (drain mb) ≡ some (m, mb')
      → (m.tag ≡ t) × P m × All P (contents mb')
  pop_tagged-Good P t mb mb' m good h =
      let h' : pop_tagged t
            (record { sig = []; queue = contents mb; count = counted (reverse mb.sig) mb.count })
          ≡ some (m, mb') =
        rw drain_lem at h in
      let (s, sig, _) = pop_tagged_lem t h' in
      let (a, b) = All-behind P s.before m s.behind (rw s.whole at good) in
      (s.tagged, a, rw (sig, s.others, append-nil) b)

  pub pop_first-Good :
      (P : Msg → Type 0) (mb mb' : Mailbox) (m : Msg)
      → All P (contents mb)
      → pop_first (drain mb) ≡ some (m, mb')
      → P m × All P (contents mb')
  pop_first-Good P mb mb' m good h =
      let h' : pop_first
            (record { sig = []; queue = contents mb; count = counted (reverse mb.sig) mb.count })
          ≡ some (m, mb') =
        rw drain_lem at h in
      let (q, sig, _) = pop_first_lem h' in let g = rw q at good in (g.0, rw (sig, append-nil) g.1)

  pub give_up-IsConsistent : (p : ℕ) (w : System) → IsConsistent w → IsConsistent (give_up p w)
  give_up-IsConsistent p w v = record {
    low = v.low;
    made = v.made;
    distinct = v.distinct;
    waits = λ q call h. v.waits q call (ground (arith, h));
    mail = v.mail;
  }

  pub contents-drain : (mb : Mailbox) → contents (drain mb) ≡ contents mb
  contents-drain mb = rw drain_lem (append-nil (contents mb))
