-- ===== src/Tests/Storage.antt =====
-- src/tls.c: a table with the keys 0 and 1, destructors 5 and none, and a thread with both values.
use libdeepc.Base.{
  ℕ, ◌≤◌, ◌<◌, ◌≡◌, refl, ◌⊎◌, true, false, Option, none, some, List, [], ◌∷◌, arith, get_elem?,
  replicate, length-replicate, ok,
}
use libdeepc.Memory.{Addr}
use libdeepc.Tls.{Tss, Local, tss_create, tss_set, run_tss_destructors}
use libdeepc.Tls.Keys.{IsTable, GivesSize, tss_create-IsTable}
use libdeepc.Tls.Values.{IsLocal, IsPut, IsGrownPut, CallocSize, tss_set-get}
use libdeepc.Tls.Exit.{run_tss_destructors-all_pending}

abbrev keys : Tss ℕ
keys = record { meta = some 5 ∷ none ∷ []; meta_capacity = 2; next = 2 }

keys-IsTable : IsTable keys
keys-IsTable = record { size = refl; fits = omega arith }

abbrev values : Local
values = record { data_ = 70 ∷ 80 ∷ []; data_capacity = 2 }

values-IsLocal : IsLocal keys values
values-IsLocal = record { size = refl; fits = omega arith }

abbrev no_values : Local
no_values = record { data_ = []; data_capacity = 0 }

no_values-IsLocal : IsLocal keys no_values
no_values-IsLocal = record { size = refl; fits = omega arith }

abbrev gives : ℕ → Option (List (Option ℕ))
gives n = some (replicate n (some 99))

gives-size : GivesSize gives
gives-size n b e = let q : replicate n (some 99) ≡ b = cc in rw (← q) (length-replicate n (some 99))

tss_create-IsTable_example :
    ((tss_create gives keys (some 6) ≡ none) × ((n : ℕ) × (gives n ≡ none)))
    ⊎ ((u : Tss ℕ) × (tss_create gives keys (some 6) ≡ some (2, u))
        × IsTable u
        × (u.next ≡ 3)
        × (get_elem? u.meta 2 ≡ some (some 6))
        × ((k : ℕ) → k < 2 → get_elem? u.meta k ≡ get_elem? keys.meta k))
tss_create-IsTable_example = tss_create-IsTable gives keys (some 6) gives-size keys-IsTable

-- A block with values of 99.
abbrev dirty : ℕ → Option (List Addr)
dirty n = some (replicate n 99)

dirty-size : CallocSize dirty
dirty-size n b e = let q : replicate n 99 ≡ b = cc in rw (← q) (length-replicate n 99)

tss_set-get_example :
    ((1 < 0)
      × (l' : Local) × (tss_set dirty keys no_values 1 80 ≡ ok (true, l'))
      × IsPut keys no_values l' 1 80)
    ⊎ (((0 ≤ 1) × (dirty 2 ≡ none) × (tss_set dirty keys no_values 1 80 ≡ ok (false, no_values)))
        ⊎ ((0 ≤ 1)
            × (block : List Addr) × (dirty 2 ≡ some block)
            × (l' : Local) × (tss_set dirty keys no_values 1 80 ≡ ok (true, l'))
            × IsGrownPut keys no_values l' block 1 80))
tss_set-get_example =
    tss_set-get keys dirty no_values 1 80 dirty-size no_values-IsLocal (omega arith)

abbrev leaves : ℕ → Addr → Tss ℕ × Local → Tss ℕ × Local
leaves d v s = s

run_tss_destructors-all_pending_example :
    run_tss_destructors leaves 3 (keys, values) ≡ ok ((5, 70) ∷ [], (keys, values))
run_tss_destructors-all_pending_example =
    run_tss_destructors-all_pending leaves keys values keys-IsTable values-IsLocal (λ d v. refl) 3
      (omega arith)
