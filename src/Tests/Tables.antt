-- ===== src/Tests/Tables.antt =====
-- Tables on concrete keys.
use swarmrt.Base.{
  ℕ, zero, suc, ◌≡◌, ◌⊎◌, refl, [], ◌∷◌, true, false, none, some, if◌then◌else◌, ◌==◌, replicate,
  All,
}
use swarmrt.Ets.{
  Val, null, int, float, string, Floats, plain_set, protected_table, Table, key_eq, insert_in,
  lookup_in, delete_in, check_write, check_read,
}
use swarmrt.Ets.Keys.{IsExact}
use swarmrt.Ets.Chains.{IsUnique}
use swarmrt.Ets.Laws.{IsValid, lookup_in-insert_in, lookup_in-delete_in, write-IsValid}
use swarmrt.Ets.Store.{Store}

-- Floats that are equal just when their bits are.
abbrev bits : Floats
bits = record { feq = λ f g. f == g; flt = λ f g. false }

-- The integer 5 lies at the addresses 1 and 2, the float of bits 9 at 3 and 4, a string at the others.
abbrev mem : ℕ → Val
mem zero = null
mem (suc zero) = int 5
mem (suc (suc zero)) = int 5
mem (suc (suc (suc zero))) = float 9
mem (suc (suc (suc (suc zero)))) = float 9
mem (suc (suc (suc (suc (suc n))))) = string (some (97 ∷ []))

abbrev fresh : Table
fresh = record {
  tid = 1;
  kind = plain_set;
  access = protected_table;
  owner = some 30;
  buckets = replicate 64 [];
  count = 0;
}

All-replicate : (n : ℕ) → All (IsUnique bits mem) (replicate n [])
All-replicate zero = tt
All-replicate (suc n) = (tt, All-replicate n)

fresh-IsValid : IsValid bits mem fresh
fresh-IsValid = record { set_kind = refl; sized = refl; unique = All-replicate 64 }

lookup_in-insert_in_example :
    lookup_in bits mem (some 31) 2 (insert_in bits mem (some 30) 1 77 fresh).1
    ≡ (if key_eq bits mem 1 2 then some 77 else lookup_in bits mem (some 31) 2 fresh)
unfolding check_write IsExact check_read
lookup_in-insert_in_example =
    lookup_in-insert_in bits mem (some 30) (some 31) 1 2 77 fresh fresh-IsValid tt tt refl refl

lookup_in-delete_in_example :
    lookup_in bits mem
      (some 31)
      2
      (delete_in bits mem (some 30) 1 (insert_in bits mem (some 30) 1 77 fresh).1).1
    ≡ (if key_eq bits mem 1 2
        then none
        else lookup_in bits mem (some 31) 2 (insert_in bits mem (some 30) 1 77 fresh).1)
unfolding check_write insert_in IsExact check_read
lookup_in-delete_in_example =
    lookup_in-delete_in bits mem (some 30) (some 31) 1 2 (insert_in bits mem (some 30) 1 77 fresh).1
      (write-IsValid bits mem (some 30) 1 77 fresh fresh-IsValid).0 tt tt refl refl

write-IsValid_example :
    IsValid bits mem (insert_in bits mem (some 31) 1 77 fresh).1
    × IsValid bits mem (delete_in bits mem (some 31) 1 fresh).1
    × ((check_write (some 31) fresh ≡ true)
        ⊎ (insert_in bits mem (some 31) 1 77 fresh ≡ (false, fresh))
          × (delete_in bits mem (some 31) 1 fresh ≡ (false, fresh)))
write-IsValid_example = write-IsValid bits mem (some 31) 1 77 fresh fresh-IsValid

-- A process with two tables, beside a table of another.
abbrev three_tables : Store
three_tables = record {
  tables = record fresh { tid = 3 } ∷ record fresh { tid = 2; owner = some 31 } ∷ fresh ∷ [];
  owned = λ p. if p == 30 then 3 ∷ 1 ∷ [] else if p == 31 then 2 ∷ [] else [];
  next_tid = 4;
}
