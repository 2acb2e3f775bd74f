-- ===== src/Patch/Preview/Exact.antt =====
-- What a preview of crates/aa-patch/src/plan.rs lists, against what a commit of the plan's shadow changes.
use prolog_forge.Prelude.{
  ℕ, ◌+◌, ◌≡◌, ◌≢◌, refl, sym, ap, ◌∙◌, subst, List, [], ◌∷◌, ◌++◌, append_assoc, append-nil,
  Option, none, some, false, ◌==◌, nat_eq, list_eq, arith, ==_iff, Str, length, get_or, Map,
  map_get, In, In-filter_map, In-filter_map_of, filter_map, if_true, if_false, Bool-cases, inl, inr,
  if◌then◌else◌,
}
use prolog_forge.Commit.Apply.{Target, select_targets}
use prolog_forge.Commit.Apply.Commits.{select_targets_exact}
use prolog_forge.Patch.Ops.{PatchPlan}
use prolog_forge.Patch.Plan.{Transforms, apply_ops, apply_plan}
use prolog_forge.Patch.Preview
use prolog_forge.Patch.Preview.{FilePatch, PatchPreview, list_files, preview}

abbrev pub sum_replacements : List FilePatch → ℕ
sum_replacements [] = 0
sum_replacements (f ∷ fs) = f.replacements + sum_replacements fs

module _ (t : Transforms) (render_unified_diff : Str → Str → Str → Str) (files : Map Str Str)
    (counts : Map Str ℕ) where
  -- The listing of one file, if it has changed.
  listed : Str × Str → Option FilePatch
  listed e =
      let original = get_or (map_get e.0 files) [] in
      if e.1 == original
      then none
      else some (
          Preview.file_patch t render_unified_diff e.0 original e.1 (get_or (map_get e.0 counts) 0))

  list_files-files :
      (working : Map Str Str) (result : PatchPreview)
      → (list_files t render_unified_diff files counts working result).files
        ≡ result.files ++ filter_map listed working
  unfolding list_files Preview.add_file filter_map listed
  list_files-files [] result = sym (append-nil result.files)
  list_files-files ((path, c) ∷ working) result =
      let original = get_or (map_get path files) [] in
      let f =
        Preview.file_patch t render_unified_diff path original c (get_or (map_get path counts) 0) in
      elim (Bool-cases (c == original)) [
        | inl same ↦ list_files-files working _ ∙ rw same refl
        | inr other ↦
            list_files-files working _
            ∙ rw other (append_assoc result.files (f ∷ []) (filter_map listed working))
      ]

  list_files-total :
      (working : Map Str Str) (result : PatchPreview)
      → result.total_replacements ≡ sum_replacements result.files
      → (list_files t render_unified_diff files counts working result).total_replacements
        ≡ sum_replacements (list_files t render_unified_diff files counts working result).files
  unfolding list_files Preview.add_file
  list_files-total [] result h = h
  list_files-total ((path, c) ∷ working) result h =
      let original = get_or (map_get path files) [] in
      let f =
        Preview.file_patch t render_unified_diff path original c (get_or (map_get path counts) 0) in
      let more = Preview.add_file t render_unified_diff f result in
      list_files-total working (if c == original then result else more)
        (elim (Bool-cases (c == original)) [
          | inl same ↦
              subst (λ (r : PatchPreview). r.total_replacements ≡ sum_replacements r.files)
                (sym (if_true (c == original) result more same)) h
          | inr other ↦
              subst (λ (r : PatchPreview). r.total_replacements ≡ sum_replacements r.files)
                (sym (if_false (c == original) result more other)) (grown result.files f h)
        ])
    where
      grown :
          (fs : List FilePatch) (g : FilePatch)
          → {n : ℕ} → n ≡ sum_replacements fs
          → n + g.replacements ≡ sum_replacements (fs ++ g ∷ [])
      grown [] g e = omega arith
      grown (x ∷ fs) g e = omega (arith, grown fs g refl)

module _ (t : Transforms) (render_unified_diff : Str → Str → Str → Str) (plan : PatchPlan)
    (files : Map Str Str) where
  -- The total of a preview is the sum over the files that it lists.
  pub preview_total :
      (preview t render_unified_diff plan files).total_replacements
      ≡ sum_replacements (preview t render_unified_diff plan files).files
  unfolding preview
  preview_total =
      let w = apply_ops t plan.ops (record { files = files; replacements = []; errors = [] }) in
      list_files-total t render_unified_diff files w.replacements w.files
        (record { files = []; total_replacements = 0; errors = [] }) refl

  -- A preview lists every file that a commit of the plan's shadow changes, with its lengths.
  pub preview_covers_commit :
      (target : Target)
      → In target (select_targets (apply_plan t plan files).0 files)
      → (f : FilePatch) × In f (preview t render_unified_diff plan files).files
        × (f.path ≡ target.rel)
        × (f.before_len ≡ length target.before)
        × (f.after_len ≡ length target.new_content)
  unfolding preview apply_plan listed Preview.file_patch
  preview_covers_commit target m =
      let w = apply_ops t plan.ops (record { files = files; replacements = []; errors = [] }) in
      let (there, had, ne) = (select_targets_exact w.files files target).0 m in
      let original = get_or (map_get target.rel files) [] in
      let was : original ≡ target.before = ap (λ o. get_or o []) had in
      let f =
        Preview.file_patch t render_unified_diff target.rel original target.new_content
          (get_or (map_get target.rel w.replacements) 0) in
      let differ : (target.new_content == original) ≡ false =
        rw was (ground (arith, ==_iff target.new_content target.before)) in
      let shown : listed t render_unified_diff files w.replacements (target.rel, target.new_content)
          ≡ some f =
        if_false (target.new_content == original) none (some f) differ in
      let place =
        list_files-files t render_unified_diff files w.replacements w.files
          (record { files = []; total_replacements = 0; errors = [] }) in
      (
        f,
        subst (In f) (sym place) (
            In-filter_map_of (listed t render_unified_diff files w.replacements)
              (target.rel, target.new_content) f w.files there shown),
        refl,
        ap length was,
        refl,
      )

  -- Each file that a preview lists has contents in the plan's shadow other than the original ones.
  pub preview_changed :
      (f : FilePatch)
      → In f (preview t render_unified_diff plan files).files
      → (new_content : Str) × In (f.path, new_content) (apply_plan t plan files).0
        × (new_content ≢ get_or (map_get f.path files) [])
        × (f.after_len ≡ length new_content)
  unfolding preview apply_plan listed Preview.file_patch
  preview_changed f m =
      let w = apply_ops t plan.ops (record { files = files; replacements = []; errors = [] }) in
      let place =
        list_files-files t render_unified_diff files w.replacements w.files
          (record { files = []; total_replacements = 0; errors = [] }) in
      let ((path, c), there, shown) =
        In-filter_map (listed t render_unified_diff files w.replacements) f w.files
          (subst (In f) place m) in
      let original = get_or (map_get path files) [] in
      let g =
        Preview.file_patch t render_unified_diff path original c
          (get_or (map_get path w.replacements) 0) in
      elim (Bool-cases (c == original)) [
        | inl same ↦ absurd (cc (sym (if_true (c == original) none (some g) same) ∙ shown))
        | inr other ↦
            let made : g ≡ f = cc (sym (if_false (c == original) none (some g) other) ∙ shown) in
            let at : path ≡ f.path = ap (λ (x : FilePatch). x.path) made in
            (
              c,
              subst (λ p. In (p, c) w.files) at there,
              subst (λ p. c ≢ get_or (map_get p files) []) at
                  (λ e. ground (arith, ==_iff c original)),
              sym (ap (λ (x : FilePatch). x.after_len) made),
            )
      ]
