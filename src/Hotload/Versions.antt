-- ===== src/Hotload/Versions.antt =====
-- Upgrades and rollbacks of a module.
use swarmrt.Base.{
  ℕ, ◌+◌, ◌%◌, ◌^◌, ◌≡◌, refl, sym, ◌∙◌, inl, inr, List, [], ◌∷◌, true, false, some, if◌then◌else◌,
  arith, Bool-cases, Bytes, bytes_eq, bytes_eq_refl, bytes_eq_sound,
}
use mathlib.Core.Bool.{false≢true}
use swarmrt.Mailbox.Receive.{ProcState}
use swarmrt.Hotload.{Module, find_module, change_module, upgrade, rollback}

-- A change of a module that keeps its name is found under that name, and other names find what they
-- did.
find-change_module :
    (name q : Bytes) (m m' : Module) (ms : List Module)
    → find_module name ms ≡ some m
    → m'.name ≡ name
    → find_module q (change_module name m' ms)
      ≡ (if bytes_eq name q then some m' else find_module q ms)
unfolding find_module change_module
find-change_module name q m m' [] h n = absurd (let c = h in cc)
find-change_module name q m m' (x ∷ ms) h n = elim (Bool-cases (bytes_eq x.name name)) [
  | inl e ↦
      let same : x.name ≡ name = bytes_eq_sound x.name name e in
      rw (e, change_module, find_module)
        (rw (n, same)
          (elim (Bool-cases (bytes_eq name q)) [ inl y ↦ rw y refl | inr y ↦ rw y refl ]))
  | inr e ↦
      let g : find_module name ms ≡ some m = rw (e, find_module) at h in
      rw (e, change_module)
        (elim (Bool-cases (bytes_eq x.name q)) [
          | inl y ↦
              let out : bytes_eq name q ≡ false = elim (Bool-cases (bytes_eq name q)) [
                | inl z ↦
                    let same : x.name ≡ name =
                      bytes_eq_sound x.name q y ∙ sym (bytes_eq_sound name q z) in
                    absurd (false≢true (sym e ∙ rw same (bytes_eq_refl name)))
                | inr z ↦ z
              ] in
              rw (y, out, find_module) refl
          | inr y ↦ rw (y, find_module) (find-change_module name q m m' ms g n)
        ])
]

find_module-name :
    (name : Bytes) (m : Module) (ms : List Module) → find_module name ms ≡ some m → m.name ≡ name
unfolding find_module
find_module-name name m [] h = absurd (let c = h in cc)
find_module-name name m (x ∷ ms) h = elim (Bool-cases (bytes_eq x.name name)) [
  | inl e ↦
      let g = rw (e, find_module) at h in
      let same : x ≡ m = cc in rw (← same) (bytes_eq_sound x.name name e)
  | inr e ↦ find_module-name name m ms (rw (e, find_module) at h)
]

-- A rollback after an upgrade succeeds and brings the function back that was current before: the
-- module has it as current and the upgraded one as previous, and its version has been counted up
-- twice; every other module is as it was.
pub rollback-upgrade :
    (state : ℕ → ProcState) (name q : Bytes) (func : ℕ) (m : Module) (ms : List Module)
    → find_module name ms ≡ some m
    → let up = upgrade state name func ms in
      let back = rollback state name up.2 in
      (up.0 ≡ true)
      × (back.0 ≡ true)
      × (find_module q back.2 ≡ (
          if bytes_eq name q
          then some (record m { previous = some func; version = (m.version + 2) % 2 ^ 32 })
          else find_module q ms))
unfolding upgrade rollback
rollback-upgrade state name q func m ms h =
    let n = find_module-name name m ms h in
    let m₁ : Module = record m {
      current = func;
      previous = some m.current;
      version = (m.version + 1) % 2 ^ 32;
    } in
    let m₂ : Module = record m {
      previous = some func;
      version = ((m.version + 1) % 2 ^ 32 + 1) % 2 ^ 32;
    } in
    let found : find_module name (change_module name m₁ ms) ≡ some m₁ =
      find-change_module name name m m₁ ms h n ∙ rw (bytes_eq_refl name) refl in
    let twice : ((m.version + 1) % 2 ^ 32 + 1) % 2 ^ 32 ≡ (m.version + 2) % 2 ^ 32 = omega arith in
    let first = find-change_module name q m m₁ ms h n in
    let second = find-change_module name q m₁ m₂ (change_module name m₁ ms) found n in
    rw (h, upgrade)
      (rw (found, rollback)
        (
          refl,
          refl,
          rw (second, first, ← twice)
              (elim (Bool-cases (bytes_eq name q)) [ inl y ↦ rw y refl | inr y ↦ rw y refl ]),
        ))
