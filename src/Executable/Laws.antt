-- ===== src/Executable/Laws.antt =====
-- What a scan of the search path finds.
use ade_ctld.Common.{
  ==_iff, Bool, Bool-cases, List, Option, [], ap, false, if◌then◌else◌, inl, inr, none, not, refl,
  some, subst, sym, true, ℕ, ◌%◌, ◌/◌, ◌==◌, ◌||◌, ◌↔◌, ◌∙◌, ◌∷◌, ◌≡◌, ◌≢◌, ◌⊎◌,
}
use ade_ctld.Text.{Bytes, base_name, codes, has_prefix}
use ade_ctld.Executable.{
  ExecutableInfo, Visit, directory, file, is_executable, scan_path, unreadable, visit_file,
}

-- The owner, the group or the others may execute the file: the bits 0100, 0010 and 0001 of its mode.
abbrev pub HasExecuteBit : ℕ → Type 0
HasExecuteBit mode = (mode / 64 % 2 ≡ 1) ⊎ (mode / 8 % 2 ≡ 1) ⊎ (mode % 2 ≡ 1)

is_executable_iff : (mode : ℕ) → (is_executable mode ≡ true) ↔ HasExecuteBit mode
unfolding is_executable
is_executable_iff mode = (runs, bit)
  where
    runs : (mode % 2 == 1 || mode / 8 % 2 == 1 || mode / 64 % 2 == 1) ≡ true → HasExecuteBit mode
    runs h = elim (Bool-cases (mode % 2 == 1)) [
      | inl others ↦ inr (inr ((==_iff (mode % 2) 1).0 others))
      | inr unset ↦ elim (Bool-cases (mode / 8 % 2 == 1)) [
        | inl group ↦ inr (inl ((==_iff (mode / 8 % 2) 1).0 group))
        | inr neither ↦ inl ((==_iff (mode / 64 % 2) 1).0 (rw (unset, neither) at h))
      ]
    ]

    bit : HasExecuteBit mode → (mode % 2 == 1 || mode / 8 % 2 == 1 || mode / 64 % 2 == 1) ≡ true
    bit (inr (inr others)) = rw ((==_iff (mode % 2) 1).1 others) refl
    bit (inr (inl group)) = elim (Bool-cases (mode % 2 == 1)) [
      | inl others ↦ rw others refl
      | inr unset ↦ rw (unset, (==_iff (mode / 8 % 2) 1).1 group) refl
    ]
    bit (inl owner) = elim (Bool-cases (mode % 2 == 1)) [
      | inl others ↦ rw others refl
      | inr unset ↦ elim (Bool-cases (mode / 8 % 2 == 1)) [
        | inl group ↦ rw (unset, group) refl
        | inr neither ↦ rw (unset, neither, (==_iff (mode / 64 % 2) 1).1 owner) refl
      ]
    ]

dotted_iff :
    (name : Bytes) → (has_prefix name (codes ".") ≡ false) ↔ ((rest : Bytes) → name ≢ b'.' ∷ rest)
unfolding has_prefix
dotted_iff [] = ((λ h rest e. absurd (cc e)), λ h. refl)
dotted_iff (c ∷ name) = (
  (λ h rest e. absurd (cc (h, ap (λ (s : Bytes). has_prefix s (codes ".")) e))),
  λ h. elim (Bool-cases (c == b'.')) [
    | inl dot ↦ absurd (h name (ap (λ n. n ∷ name) ((==_iff c b'.').0 dot)))
    | inr other ↦ rw other refl
  ],
)

-- The visit is one of a file with an execute bit and a name that does not start with a dot, and
-- the executable is that file under its base name.
abbrev pub IsFoundAt : ExecutableInfo → Visit → Type 0
IsFoundAt e v =
    (mode : ℕ) × (v ≡ file e.path mode)
    × HasExecuteBit mode
    × ((rest : Bytes) → e.name ≢ b'.' ∷ rest)
    × (e.name ≡ base_name e.path)

-- an element of the list for which `P` holds
pub data Among {A : Type 0} (P : A → Type 0) : List A → Type 0 where
  first : {x : A} {xs : List A} → P x → Among P (x ∷ xs)
  later : {x : A} {xs : List A} → Among P xs → Among P (x ∷ xs)

abbrev info_of : Bytes → ExecutableInfo
info_of path = record { name = base_name path; path = path }

-- what the two tests on a file come to
visit_file-file :
    (path : Bytes) (mode : ℕ) (x d : Bool)
    → is_executable mode ≡ x
    → has_prefix (base_name path) (codes ".") ≡ d
    → visit_file (file path mode)
      ≡ (if not x then none else if d then none else some (info_of path))
unfolding visit_file
visit_file-file path mode x d hx hd = rw (hx, hd) refl

IsFoundAt-file :
    (path : Bytes) (mode : ℕ) (e : ExecutableInfo) (x d : Bool)
    → is_executable mode ≡ x
    → has_prefix (base_name path) (codes ".") ≡ d
    → (if not x then none else if d then none else some (info_of path)) ≡ some e
    → IsFoundAt e (file path mode)
IsFoundAt-file path mode e false d hx hd h = absurd (cc)
IsFoundAt-file path mode e true true hx hd h = absurd (cc)
IsFoundAt-file path mode e true false hx hd h =
    let same : info_of path ≡ e = cc in
    subst (λ i. IsFoundAt i (file path mode)) same
      (mode, refl, (is_executable_iff mode).0 hx, (dotted_iff (base_name path)).0 hd, refl)

visit_file_iff : (v : Visit) (e : ExecutableInfo) → (visit_file v ≡ some e) ↔ IsFoundAt e v
unfolding visit_file
visit_file_iff v e = (found v, made v)
  where
    found : (v : Visit) → visit_file v ≡ some e → IsFoundAt e v
    found unreadable h = absurd (cc)
    found (directory path) h = absurd (cc)
    found (file path mode) h =
        IsFoundAt-file path mode e _ _ refl refl (sym (visit_file-file path mode _ _ refl refl) ∙ h)

    made : (v : Visit) → IsFoundAt e v → visit_file v ≡ some e
    made v (mode, is_file, runs, shown, named) =
        ap visit_file is_file
        ∙ visit_file-file e.path mode true false ((is_executable_iff mode).1 runs)
            (ap (λ n. has_prefix n (codes ".")) (sym named) ∙ (dotted_iff e.name).1 shown)
        ∙ ap (λ n. some (record { name = n; path = e.path })) (sym named)

scan_path-step :
    (v : Visit) (vs : List Visit) (o : Option ExecutableInfo)
    → visit_file v ≡ o
    → scan_path (v ∷ vs) ≡ (elim o [ none ↦ scan_path vs | some e ↦ e ∷ scan_path vs ])
unfolding scan_path
scan_path-step v vs o h = ap (λ x. elim x [ none ↦ scan_path vs | some e ↦ e ∷ scan_path vs ]) h

module _ (e : ExecutableInfo) where
  abbrev pub IsThis : ExecutableInfo → Type 0
  IsThis i = i ≡ e

  step_iff :
      (v : Visit) (vs : List Visit) (o : Option ExecutableInfo)
      → visit_file v ≡ o
      → (Among IsThis (scan_path vs) ↔ Among (IsFoundAt e) vs)
      → Among IsThis (elim o [ none ↦ scan_path vs | some i ↦ i ∷ scan_path vs ])
        ↔ Among (IsFoundAt e) (v ∷ vs)
  step_iff v vs none h (to, from) = (
    (λ s. later (to s)),
    λ s. elim s [
      | first found ↦ absurd (cc (h, (visit_file_iff v e).1 found))
      | later rest ↦ from rest
    ],
  )
  step_iff v vs (some i) h (to, from) = (
    (λ s. elim s [
      | first same ↦ first ((visit_file_iff v e).0 (h ∙ ap some same))
      | later rest ↦ later (to rest)
    ]),
    λ s. elim s [
      | first found ↦ first (cc (h, (visit_file_iff v e).1 found))
      | later rest ↦ later (from rest)
    ],
  )

  -- An executable is found by a walk exactly if the walk visits it: a file with an execute bit,
  -- whose base name, under which it is found, does not start with a dot.
  pub scan_path_iff : (vs : List Visit) → Among IsThis (scan_path vs) ↔ Among (IsFoundAt e) vs
  unfolding scan_path
  scan_path_iff [] = ((λ s. elim s [ ]), λ s. elim s [ ])
  scan_path_iff (v ∷ vs) = step_iff v vs (visit_file v) refl (scan_path_iff vs)
