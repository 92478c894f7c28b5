-- ===== src/Synchronization/EventQueues/Lookup.antt =====
-- The watches of an event queue of SynchronizationManager.cpp as a map from files.
use twisted_os_v.Common.{
  ℕ, ◌≡◌, ◌≢◌, refl, sym, ap, ◌∙◌, subst, true, false, ◌||◌, List, [], ◌∷◌, ◌++◌, Option, none,
  some, arith, ◌==◌, ==_iff, Bool-cases, inl, inr,
}
use twisted_os_v.Synchronization.{find_tag, remove_tag}
use twisted_os_v.Synchronization.EventQueues.{EpollWatchTag, modify_watch}
use twisted_os_v.Synchronization.EventQueues.Watches.{watches_file}

-- The watch of a file.
abbrev pub lookup : ℕ → List EpollWatchTag → Option EpollWatchTag
lookup file ws = find_tag (λ w. w.file_descriptor == file) ws

-- No file is watched twice.
abbrev pub WatchedOnce : List EpollWatchTag → Type 0
WatchedOnce [] = Unit
WatchedOnce (w ∷ ws) = (watches_file w.file_descriptor ws ≡ false) × WatchedOnce ws

pub lookup-absent :
    (file : ℕ) (ws : List EpollWatchTag) → watches_file file ws ≡ false → lookup file ws ≡ none
unfolding find_tag
lookup-absent file [] out = refl
lookup-absent file (w ∷ ws) out =
    let other : (w.file_descriptor == file) ≡ false = ground arith in
    let rest : watches_file file ws ≡ false = ground arith in rw other (lookup-absent file ws rest)

pub absent-lookup :
    (file : ℕ) (ws : List EpollWatchTag) → lookup file ws ≡ none → watches_file file ws ≡ false
unfolding find_tag
absent-lookup file [] missing = refl
absent-lookup file (w ∷ ws) missing = elim (Bool-cases (w.file_descriptor == file)) [
  | inl same ↦ absurd (ground (arith, same, missing))
  | inr other ↦ rw other (absent-lookup file ws (ground (arith, other, missing)))
]

pub watches_file-append :
    (file : ℕ) (ws : List EpollWatchTag) (v : EpollWatchTag)
    → watches_file file (ws ++ v ∷ []) ≡ (watches_file file ws || v.file_descriptor == file)
watches_file-append file [] v = ground arith
watches_file-append file (w ∷ ws) v = ground (arith, watches_file-append file ws v)

pub WatchedOnce-append :
    (ws : List EpollWatchTag) (v : EpollWatchTag)
    → watches_file v.file_descriptor ws ≡ false
    → WatchedOnce ws
    → WatchedOnce (ws ++ v ∷ [])
WatchedOnce-append [] v out once = (refl, tt)
WatchedOnce-append (w ∷ ws) v out (fresh, once) = (
  ground (arith, watches_file-append w.file_descriptor ws v),
  WatchedOnce-append ws v (ground arith) once,
)

pub lookup-append_self :
    (ws : List EpollWatchTag) (v : EpollWatchTag)
    → watches_file v.file_descriptor ws ≡ false
    → lookup v.file_descriptor (ws ++ v ∷ []) ≡ some v
unfolding find_tag
lookup-append_self [] v out =
    let same : (v.file_descriptor == v.file_descriptor) ≡ true = ground arith in rw same
lookup-append_self (w ∷ ws) v out =
    let other : (w.file_descriptor == v.file_descriptor) ≡ false = ground arith in
    rw other (lookup-append_self ws v (ground arith))

pub lookup-append_ne :
    (file : ℕ) (ws : List EpollWatchTag) (v : EpollWatchTag)
    → v.file_descriptor ≢ file
    → lookup file (ws ++ v ∷ []) ≡ lookup file ws
unfolding find_tag
lookup-append_ne file [] v apart =
    let other : (v.file_descriptor == file) ≡ false = ground arith in rw other
lookup-append_ne file (w ∷ ws) v apart = rw (lookup-append_ne file ws v apart)

pub watches_file-removed :
    (target file : ℕ) (ws : List EpollWatchTag)
    → watches_file file ws ≡ false
    → watches_file file (remove_tag (λ w. w.file_descriptor == target) ws) ≡ false
unfolding remove_tag
watches_file-removed target file [] out = refl
watches_file-removed target file (w ∷ ws) out = ground (arith, watches_file-removed target file ws)

pub WatchedOnce-removed :
    (target : ℕ) (ws : List EpollWatchTag)
    → WatchedOnce ws
    → WatchedOnce (remove_tag (λ w. w.file_descriptor == target) ws)
unfolding remove_tag
WatchedOnce-removed target [] once = tt
WatchedOnce-removed target (w ∷ ws) (fresh, once) =
    elim (Bool-cases (w.file_descriptor == target)) [
      | inl same ↦ rw same once
      | inr other ↦ rw other (
        watches_file-removed target w.file_descriptor ws fresh,
        WatchedOnce-removed target ws once,
      )
    ]

pub lookup-removed_self :
    (target : ℕ) (ws : List EpollWatchTag)
    → WatchedOnce ws
    → lookup target (remove_tag (λ w. w.file_descriptor == target) ws) ≡ none
unfolding find_tag remove_tag
lookup-removed_self target [] once = refl
lookup-removed_self target (w ∷ ws) (fresh, once) =
    elim (Bool-cases (w.file_descriptor == target)) [
      | inl same ↦ rw same (
          lookup-absent target ws (
            subst (λ f. watches_file f ws ≡ false) ((==_iff w.file_descriptor target).0 same)
              fresh))
      | inr other ↦ rw (other, other) (lookup-removed_self target ws once)
    ]

pub lookup-removed_ne :
    (target file : ℕ) (ws : List EpollWatchTag)
    → file ≢ target
    → lookup file (remove_tag (λ w. w.file_descriptor == target) ws) ≡ lookup file ws
unfolding find_tag remove_tag
lookup-removed_ne target file [] apart = refl
lookup-removed_ne target file (w ∷ ws) apart = elim (Bool-cases (w.file_descriptor == target)) [
  | inl same ↦
      let other : (w.file_descriptor == file) ≡ false = ground (arith, same) in rw (same, other)
  | inr other ↦ rw (other, lookup-removed_ne target file ws apart)
]

pub watches_file-modified :
    (target events user_data file : ℕ) (ws : List EpollWatchTag)
    → watches_file file (modify_watch target events user_data ws) ≡ watches_file file ws
unfolding modify_watch
watches_file-modified target events user_data file [] = refl
watches_file-modified target events user_data file (w ∷ ws) =
    elim (Bool-cases (w.file_descriptor == target)) [
      | inl same ↦ rw same
      | inr other ↦ rw (other, watches_file-modified target events user_data file ws)
    ]

pub WatchedOnce-modified :
    (target events user_data : ℕ) (ws : List EpollWatchTag)
    → WatchedOnce ws
    → WatchedOnce (modify_watch target events user_data ws)
unfolding modify_watch
WatchedOnce-modified target events user_data [] once = tt
WatchedOnce-modified target events user_data (w ∷ ws) (fresh, once) =
    elim (Bool-cases (w.file_descriptor == target)) [
      | inl same ↦ rw same (fresh, once)
      | inr other ↦ rw other (
        watches_file-modified target events user_data w.file_descriptor ws ∙ fresh,
        WatchedOnce-modified target events user_data ws once,
      )
    ]

pub lookup-modified_self :
    (target events user_data : ℕ) (ws : List EpollWatchTag) (x : EpollWatchTag)
    → lookup target ws ≡ some x
    → lookup target (modify_watch target events user_data ws)
      ≡ some (record { file_descriptor = target; events = events; user_data = user_data })
unfolding find_tag modify_watch
lookup-modified_self target events user_data [] x found = absurd (ground (arith, found))
lookup-modified_self target events user_data (w ∷ ws) x found =
    elim (Bool-cases (w.file_descriptor == target)) [
      | inl same ↦
          rw (same, same)
            (ap (λ f. some (record { file_descriptor = f; events = events; user_data = user_data }))
              ((==_iff w.file_descriptor target).0 same))
      | inr other ↦
          let rest : lookup target ws ≡ some x = sym (rw other refl) ∙ found in
          rw (other, other) (lookup-modified_self target events user_data ws x rest)
    ]

pub lookup-modified_ne :
    (target events user_data file : ℕ) (ws : List EpollWatchTag)
    → file ≢ target
    → lookup file (modify_watch target events user_data ws) ≡ lookup file ws
unfolding find_tag modify_watch
lookup-modified_ne target events user_data file [] apart = refl
lookup-modified_ne target events user_data file (w ∷ ws) apart =
    elim (Bool-cases (w.file_descriptor == target)) [
      | inl same ↦
          let other : (w.file_descriptor == file) ≡ false = ground (arith, same) in rw (same, other)
      | inr other ↦ rw (other, lookup-modified_ne target events user_data file ws apart)
    ]
