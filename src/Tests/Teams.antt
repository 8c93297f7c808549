-- ===== src/Tests/Teams.antt =====
-- Process groups on concrete names.
use swarmrt.Base.{
  ℕ, zero, suc, ◌+◌, ◌≡◌, refl, ltb, ◌-◌, ◌^◌, List, [], ◌∷◌, not, if◌then◌else◌, ◌==◌, replicate,
  select, Bytes, bytes_eq,
}
use swarmrt.Groups.{Group, pg_hash, join, all_members, cleanup_proc}
use swarmrt.Groups.Members.{with_member, all_members-join, all_members-cleanup_proc}
use swarmrt.Groups.LongNames.{IsCut}

-- A `char` that is signed.
abbrev signed_char : ℕ → ℕ
signed_char c = if ltb c 128 then c else c + 2 ^ 32 - 256

abbrev no_groups : List (List Group)
no_groups = replicate 256 []

abbrev workers : Bytes
workers = 119 ∷ 111 ∷ []

all_members-join_example :
    all_members signed_char workers
      (join signed_char workers 8 (join signed_char workers 7 no_groups))
    ≡ (if bytes_eq workers workers
        then with_member 8 (all_members signed_char workers (join signed_char workers 7 no_groups))
        else all_members signed_char workers (join signed_char workers 7 no_groups))
unfolding join pg_hash
all_members-join_example =
    all_members-join signed_char workers workers 8 (join signed_char workers 7 no_groups) refl refl

all_members-cleanup_proc_example :
    all_members signed_char workers (cleanup_proc 7 (join signed_char workers 7 no_groups))
    ≡ select
        (λ q. not (q == 7))
        (all_members signed_char workers (join signed_char workers 7 no_groups))
all_members-cleanup_proc_example =
    all_members-cleanup_proc signed_char 7 workers (join signed_char workers 7 no_groups)

replicate-IsCut : (n : ℕ) → IsCut (replicate n [])
replicate-IsCut zero = tt
replicate-IsCut (suc n) = (tt, replicate-IsCut n)

abbrev long_name : Bytes
long_name = replicate 64 97
