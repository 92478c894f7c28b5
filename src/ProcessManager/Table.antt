-- ===== src/ProcessManager/Table.antt =====
-- What the process table of ProcessManager.cpp keeps.
use twisted_os_v.Common.{
  ℕ, zero, suc, ◌+◌, ◌<◌, ◌≡◌, refl, sym, ap, subst, ◌∙◌, true, none, some, arith, ◌==◌, ==_iff,
  Bool-cases, inl, inr, get_elem?, length, set, get_elem?-set_self, get_elem?-set_ne, length-set,
}
use twisted_os_v.Process.{Process}
use twisted_os_v.ProcessManager.{
  ProcessManager, max_processes, is_terminated, reset_file_table_entries, initialize_process_entry,
  new_processes, new_process_manager, reset_signal_actions,
}

-- A free slot keeps no stack, no open file, no address space and no signal actions.
pub record IsCleared (p : Process) : Type 0 where
  pub stack : p.stack_pointer ≡ 0
  pub files : p.file_table ≡ reset_file_table_entries
  pub space : p.address_space ≡ 0
  pub actions : p.signal_actions ≡ none

-- The id of an entry is its index, and what is terminated is cleared.
pub record IsEntry (index : ℕ) (p : Process) : Type 0 where
  pub id : p.id ≡ index
  pub cleared : is_terminated p.status ≡ true → IsCleared p

-- The table has its 32 entries, each in order.
pub record IsTable (m : ProcessManager) : Type 0 where
  pub size : length m.processes ≡ max_processes
  pub entries : (index : ℕ) (p : Process) → get_elem? m.processes index ≡ some p → IsEntry index p

pub some-injective {ℓ} : {A : Type ℓ} (x y : A) → some x ≡ some y → x ≡ y
some-injective x y e = ap (λ o. elim o [ none ↦ x | some z ↦ z ]) e

pub IsTable-set :
    (m : ProcessManager) (index : ℕ) (entry : Process)
    → IsTable m
    → IsEntry index entry
    → index < length m.processes
    → IsTable (record m { processes = set m.processes index entry })
IsTable-set m index entry is ok inside = record {
  size = length-set m.processes index entry ∙ is.size;
  entries = λ j p at. elim (Bool-cases (index == j)) [
    | inl same ↦
        let e : index ≡ j = (==_iff index j).0 same in
        let here : some entry ≡ some p =
          sym (get_elem?-set_self m.processes index entry inside)
          ∙ subst (λ k. get_elem? (set m.processes index entry) k ≡ some p) (sym e) at in
        subst (IsEntry j) (some-injective entry p here) (subst (λ k. IsEntry k entry) e ok)
    | inr other ↦
        is.entries j p
          (sym (get_elem?-set_ne m.processes entry (λ e. absurd (ground (arith, e)))) ∙ at)
  ];
}

new_processes-IsEntry :
    (remaining index : ℕ) (raw : ℕ → Process) (j : ℕ) (p : Process)
    → get_elem? (new_processes remaining index raw) j ≡ some p
    → IsEntry (index + j) p
unfolding new_processes initialize_process_entry reset_signal_actions
new_processes-IsEntry zero index raw j p at = absurd (ground (arith, at))
new_processes-IsEntry (suc remaining) index raw zero p at =
    let e = some-injective _ p at in
    subst (IsEntry (index + 0)) e (record {
      id = omega arith;
      cleared = λ _. record { stack = refl; files = refl; space = refl; actions = refl };
    })
new_processes-IsEntry (suc remaining) index raw (suc j) p at =
    subst (λ k. IsEntry k p) (omega arith) (new_processes-IsEntry remaining (suc index) raw j p at)

length-new_processes :
    (remaining index : ℕ) (raw : ℕ → Process)
    → length (new_processes remaining index raw) ≡ remaining
unfolding new_processes
length-new_processes zero index raw = refl
length-new_processes (suc remaining) index raw =
    ap suc (length-new_processes remaining (suc index) raw)

-- The constructor makes a table, whatever the memory held before.
pub new_process_manager-IsTable : (raw : ℕ → Process) → IsTable (new_process_manager raw)
unfolding new_process_manager
new_process_manager-IsTable raw = record {
  size = length-new_processes max_processes 0 raw;
  entries = λ index p at.
      subst (λ k. IsEntry k p) (omega arith) (new_processes-IsEntry max_processes 0 raw index p at);
}
