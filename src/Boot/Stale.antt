-- ===== src/Boot/Stale.antt =====
-- RemoveStaleFvFileOptions of PlatformBm.c removes the stale options, and no other.
use edk2_uemu.Common.{
  ℕ, ◌≡◌, refl, Bool, true, not, ◌&&◌, none, some, List, [], ◌∷◌, ◌++◌, ◌==◌, if◌then◌else◌, inl,
  inr, Bool-cases, Option-cases, ap, ◌∙◌, sym, ◌||◌, arith, max_uint64,
}
use edk2_uemu.Efi.{ok, err, fault, is_error, Result-cases}
use edk2_uemu.Text.{Text, codes}
use edk2_uemu.Boot.Options.{
  Node, BootOption, BootManager, is_fv_file, resolves, remove_stale, remove_loop,
  remove_stale_fv_file_options, platform_register_fv_boot_option, update_boot_options,
}

-- The options that pass a test, in their order.
abbrev pub filter : (BootOption → Bool) → List BootOption → List BootOption
filter keep [] = []
filter keep (option ∷ options) =
    if keep option then option ∷ filter keep options else filter keep options

filter-filter :
    (first second : BootOption → Bool) (options : List BootOption)
    → filter second (filter first options) ≡ filter (λ x. first x && second x) options
filter-filter first second [] = refl
filter-filter first second (x ∷ options) =
    let rest = filter-filter first second options in
    elim (Bool-cases (first x)) [
      | inl e ↦ elim (Bool-cases (second x)) [
        | inl f ↦ rw (filter, e, f, rest) refl
        | inr f ↦ rw (filter, e, f, rest) refl
      ]
      | inr e ↦ rw (filter, e, rest) refl
    ]

filter_all : (options : List BootOption) → filter (λ x. true) options ≡ options
filter_all [] = refl
filter_all (x ∷ options) = rw (filter_all options) refl

-- UefiBootManagerLib as it is documented: the number of an option names its variable; an option is
-- initialized with the number that it is given; and one whose number is unassigned gets the number
-- `free_number` when it is added at the end of the boot order.
pub record IsDocumented {S : Type 0} (manager : BootManager S) (free_number : S → ℕ) : Type 0 where
  pub deletes :
      (s : S) (number : ℕ)
      → manager.load_options (manager.delete_load_option_variable s number)
        ≡ filter (λ x. not (x.number == number)) (manager.load_options s)
  pub numbered :
      (s : S) (number attributes : ℕ) (description : Text) (file_guid : ℕ)
      → (manager.initialize_load_option s number attributes description file_guid).number ≡ number
  pub adds :
      (s : S) (option : BootOption)
      → option.number ≡ 0x10000
      → manager.load_options (manager.add_load_option_variable s option max_uint64)
        ≡ manager.load_options s ++ record option { number = free_number s } ∷ []

-- The node has this type and subtype.
abbrev pub is_node : ℕ → ℕ → Node → Bool
is_node type sub_type node = node.type == type && node.sub_type == sub_type

module _ {S : Type 0} (manager : BootManager S) where
  -- The volume of the option is not there, or does not yield its file.
  abbrev pub is_lost : BootOption → Bool
  is_lost option = elim (manager.locate_volume option) [
    | ok volume ↦ is_error (manager.read_file volume option)
    | err status ↦ true
    | fault ↦ true
  ]

  -- The path starts with mapped memory, a hardware node of subtype 3, or a firmware volume, a media node of
  -- subtype 7, goes on with a file, a media node of subtype 6, and that is lost.
  unfoldable pub is_stale : BootOption → Bool
  is_stale option =
      ((is_node 1 3 option.node1 || is_node 4 7 option.node1) && is_node 4 6 option.node2)
      && is_lost option

  is_stale_lem :
      (option : BootOption) → is_stale option ≡ (is_fv_file option && not (resolves manager option))
  unfolding is_stale is_fv_file resolves
  is_stale_lem option = elim (Result-cases (manager.locate_volume option)) [
    | inl (volume, e) ↦ ground (arith, e)
    | inr (inl (status, e)) ↦ ground (arith, e)
    | inr (inr e) ↦ ground (arith, e)
  ]

  -- No stale option of the list has this number.
  abbrev pub is_kept : List BootOption → ℕ → Bool
  is_kept [] number = true
  is_kept (option ∷ options) number =
      not (is_stale option && number == option.number) && is_kept options number

  -- The options with a new one of this number behind them, where it is not among them.
  abbrev pub registered : BootOption → ℕ → List BootOption → List BootOption
  registered option number options = elim (manager.find_load_option option options) [
    | none ↦ options ++ record option { number = number } ∷ []
    | some index ↦ options
  ]

module _ {S : Type 0} (manager : BootManager S) (free_number : S → ℕ)
    (doc : IsDocumented manager free_number) where
  remove_stale_lem :
      (option : BootOption) (s : S)
      → manager.load_options (remove_stale manager option s)
        ≡ filter
            (λ x. not (is_stale manager option && x.number == option.number))
            (manager.load_options s)
  unfolding remove_stale
  remove_stale_lem option s =
      let stale = is_stale_lem manager option in
      elim (Bool-cases (is_fv_file option)) [
        | inr other ↦ rw (remove_stale, stale, other) (sym (filter_all (manager.load_options s)))
        | inl file ↦ elim (Bool-cases (resolves manager option)) [
          | inl found ↦
              rw (remove_stale, stale, file, found) (sym (filter_all (manager.load_options s)))
          | inr lost ↦ rw (remove_stale, stale, file, lost) (doc.deletes s option.number)
        ]
      ]

  remove_loop_lem :
      (options : List BootOption) (s : S)
      → manager.load_options (remove_loop manager options s)
        ≡ filter (λ x. is_kept manager options x.number) (manager.load_options s)
  unfolding remove_loop
  remove_loop_lem [] s = sym (filter_all (manager.load_options s))
  remove_loop_lem (option ∷ options) s =
      remove_loop_lem options (remove_stale manager option s)
      ∙ ap (filter (λ x. is_kept manager options x.number)) (remove_stale_lem option s)
      ∙ filter-filter (λ x. not (is_stale manager option && x.number == option.number))
          (λ x. is_kept manager options x.number) (manager.load_options s)

  stale_options_lem :
      (s : S)
      → manager.load_options (remove_stale_fv_file_options manager s)
        ≡ filter (λ x. is_kept manager (manager.load_options s) x.number) (manager.load_options s)
  unfolding remove_stale_fv_file_options
  stale_options_lem s = remove_loop_lem (manager.load_options s) s

  registered_lem :
      (guid attributes : ℕ) (description : Text) (s : S)
      → manager.load_options
          (platform_register_fv_boot_option manager guid description attributes s)
        ≡ registered manager
            (manager.initialize_load_option s 0x10000 attributes description guid)
            (free_number s)
            (manager.load_options s)
  unfolding platform_register_fv_boot_option
  registered_lem guid attributes description s =
      let option = manager.initialize_load_option s 0x10000 attributes description guid in
      let unassigned = doc.numbered s 0x10000 attributes description guid in
      elim (Option-cases (manager.find_load_option option (manager.load_options s))) [
        | inl new ↦
            rw (platform_register_fv_boot_option, registered, new) (doc.adds s option unassigned)
        | inr (index, old) ↦ rw (platform_register_fv_boot_option, registered, old) refl
      ]

  -- Behind PlatformBootManagerAfterConsole the boot options are those of before, with the shell behind
  -- them where it was not listed, without those whose number is that of a stale option: one that starts
  -- with a firmware volume or mapped memory, goes on with a file in it, and whose volume is not found or
  -- does not yield the file. The others keep their order.
  pub update_boot_options_lem :
      (shell_guid : ℕ) (s : S)
      → let shell =
          manager.initialize_load_option s 0x10000 1 (codes "EFI Internal Shell") shell_guid in
        let listed = registered manager shell (free_number s) (manager.load_options s) in
        manager.load_options (update_boot_options manager shell_guid s)
        ≡ filter (λ x. is_kept manager listed x.number) listed
  unfolding update_boot_options
  update_boot_options_lem shell_guid s =
      stale_options_lem
        (platform_register_fv_boot_option manager shell_guid (codes "EFI Internal Shell") 1 s)
      ∙ ap (λ listed. filter (λ x. is_kept manager listed x.number) listed)
          (registered_lem shell_guid 1 (codes "EFI Internal Shell") s)
