-- ===== src/Asar/Search.antt =====
-- What the search for an archive finds (atom/common/asar/asar_util.cc,
-- atom/browser/net/asar/asar_protocol_handler.cc).
use atom_shell.Common.{
  ℕ, zero, suc, ◌<◌, ◌≡◌, ◌≢◌, ◌⊎◌, inl, inr, refl, sym, ap, ◌∙◌, Bool, true, false, Option, none,
  some, String, str_eq, eq_iff, if◌then◌else◌, arith, Bool-cases,
}
use atom_shell.Common.Dictionary.{string_key, contains, lookup-insert, contains-insert, same_refl}
use atom_shell.Asar.Header.{Result}
use atom_shell.Asar.Archive.{Archive}
use atom_shell.Asar.Locate.{
  Files, ArchiveMap, file_job, find_asar, get_asar_archive_path, add_archive,
  get_or_create_asar_archive, create_job_from_path,
}

module _ (b : Files) where
  open b use {dir_name, matches_asar, init}

  -- The nearest path at or above a path that is an archive, if there is one.
  pub data Nearest : String → Option String → Type 0 where
    here : {p : String} → matches_asar p ≡ true → Nearest p (some p)
    top : {p : String} → matches_asar p ≡ false → dir_name p ≡ p → Nearest p none
    up :
        {p : String} {r : Option String}
        → matches_asar p ≡ false
        → Nearest (dir_name p) r
        → Nearest p r

  -- DirName of a path is the path or is less deep.
  abbrev pub Shortens : (String → ℕ) → Type 0
  Shortens depth = (p : String) → (dir_name p ≡ p) ⊎ (depth (dir_name p) < depth p)

  differs : (p q : String) → str_eq p q ≡ false → p ≢ q
  differs p q h e = ground (arith, h, eq_iff p q, e)

  -- With more fuel than the path is deep, the search ends, and it finds the nearest archive at or above the
  -- path.
  pub find_asar-Nearest :
      (depth : String → ℕ)
      → Shortens depth
      → (n : ℕ) (p : String) → depth p < n
      → (r : Option String) × ((find_asar b n p ≡ some r) × Nearest p r)
  unfolding find_asar
  find_asar-Nearest depth short zero p h = absurd (omega (arith, h))
  find_asar-Nearest depth short (suc n) p h = elim (Bool-cases (matches_asar p)) [
    | inl e ↦ (some p, (simp e refl, here e))
    | inr e ↦ elim (Bool-cases (str_eq p (dir_name p))) [
      | inl q ↦ (none, (simp (e, q) refl, top e (sym ((eq_iff p (dir_name p)).0 q))))
      | inr q ↦ elim (short p) [
        | inl s ↦ absurd (differs p (dir_name p) q (sym s))
        | inr l ↦
            let ih = find_asar-Nearest depth short n (dir_name p) (omega (arith, h, l)) in
            (ih.0, (simp (e, q) (ih.1.0), up e (ih.1.1)))
      ]
    ]
  ]

  added_again :
      (path : String) (o : Option Archive) (archives : ArchiveMap)
      → contains path archives ≡ false
      → init path ≡ o
      → get_or_create_asar_archive b path (add_archive b path o archives).1
        ≡ add_archive b path o archives
  unfolding get_or_create_asar_archive
  added_again path none archives h i = simp (h, i) refl
  added_again path (some archive) archives h i =
      simp
        (
          contains-insert path path archive archives,
          lookup-insert path path archive archives,
          same_refl path,
        )
        refl

  -- An archive that was found is found again as it was, without another Init, and a path whose Init failed
  -- is tried again.
  pub get_or_create-again :
      (path : String) (archives : ArchiveMap)
      → get_or_create_asar_archive b path (get_or_create_asar_archive b path archives).1
        ≡ get_or_create_asar_archive b path archives
  unfolding get_or_create_asar_archive
  get_or_create-again path archives = elim (Bool-cases (contains path archives)) [
    | inl e ↦ simp e refl
    | inr e ↦ simp e (added_again path (init path) archives e refl)
  ]

  stops :
      (m c : Bool) (p : String) (above : Result String) (r : Option String)
      → m ≡ false
      → (if m then some (some p) else if c then some none else above) ≡ some r
      → (r ≡ none) ⊎ ((c ≡ false) × (above ≡ some r))
  stops true c p above r e h = ground (arith, e)
  stops false true p above r e h =
      inl (ap (λ (o : Result String). elim o [ none ↦ none | some x ↦ x ]) (sym h))
  stops false false p above r e h = inr (refl, h)

  find_asar-none :
      (p : String) (o : Option String)
      → Nearest p o
      → o ≡ none
      → (n : ℕ) (r : Option String) → find_asar b n p ≡ some r
      → r ≡ none
  unfolding find_asar
  find_asar-none _ _ (here {p} e) k n r h = ground (arith, k)
  find_asar-none _ _ (top {p} e f) k zero r h = ground (arith, h)
  find_asar-none _ _ (top {p} e f) k (suc n) r h =
      elim (stops (matches_asar p) (str_eq p (dir_name p)) p (find_asar b n (dir_name p)) r e h) [
        | inl i ↦ i
        | inr q ↦ absurd (differs p (dir_name p) (q.0) (sym f))
      ]
  find_asar-none _ _ (up {p} {r = o} e g) k zero r h = ground (arith, h)
  find_asar-none _ _ (up {p} {r = o} e g) k (suc n) r h =
      elim (stops (matches_asar p) (str_eq p (dir_name p)) p (find_asar b n (dir_name p)) r e h) [
        | inl i ↦ i
        | inr q ↦ find_asar-none (dir_name p) o g k n r q.1
      ]

  outside :
      (p : String) (n : ℕ) (archives : ArchiveMap)
      → find_asar b n p ≡ some none
      → create_job_from_path b n p archives ≡ some (file_job p, archives)
  unfolding create_job_from_path get_asar_archive_path
  outside p n archives e = rw (e, create_job_from_path, get_asar_archive_path) refl

  -- A path with no archive at or above it is served as a file, and no archive is opened, with more fuel
  -- than the path is deep.
  pub create_job_from_path-outside :
      (depth : String → ℕ)
      → Shortens depth
      → (n : ℕ) (p : String) (archives : ArchiveMap) → depth p < n
      → Nearest p none
      → create_job_from_path b n p archives ≡ some (file_job p, archives)
  create_job_from_path-outside depth short n p archives h k =
      outside p n archives
        (found.1.0 ∙ ap some (find_asar-none p none k refl n (found.0) (found.1.0)))
    where
      found : (r : Option String) × ((find_asar b n p ≡ some r) × Nearest p r)
      found = find_asar-Nearest depth short n p h
