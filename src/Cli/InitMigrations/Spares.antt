-- ===== src/Cli/InitMigrations/Spares.antt =====
-- cli/commands/init.py and cli/commands/schema.py: which files the two scaffolding commands write.
use krossdb.Common.{
  String, Bool, false, not, ◌&&◌, List, [], ◌∷◌, ◌++◌, map, filter, ◌≡◌, refl, sym, ap, ◌∙◌, All,
  Result, ok, raise, Exec, ◌>>◌, continue, ◌==◌, arith, append_assoc, append-nil, Bool-cases, inl,
  inr,
}
use krossdb.Common.Text.{◌+++◌}
use krossdb.Cli.{
  Disk, Command, Stop, Color, red, green, Write, write_text, mkdir, touch, secho, quit, write,
}
use krossdb.Cli.MetadataPath.{partition}
use krossdb.Cli.Init.{scaffold, template}
use krossdb.Cli.InitMigrations.{
  Options, versions_dir, targets, existing, nonempty, comma_separated, write_targets,
  scaffold_project, init_migrations,
}

All-append : (P : Write → Type 0) (xs ys : List Write) → All P xs → All P ys → All P (xs ++ ys)
All-append P [] ys h k = k
All-append P (x ∷ xs) ys h k = (h.0, All-append P xs ys h.1 k)

module _ {W : Type 0} where
  -- A command only adds writes, each of which satisfies a predicate.
  abbrev Adds : (Write → Type 0) → Exec (Command W) Stop Unit → Type 0
  Adds P m = (s : Command W) → (ws : List Write) × ((m s).1.writes ≡ s.writes ++ ws) × All P ws

  Adds-secho : (P : Write → Type 0) (c : Color) (t : String) → Adds P (secho c t)
  Adds-secho P c t s = ([], sym (append-nil s.writes), tt)

  Adds-quit : (P : Write → Type 0) → Adds P (quit 1)
  Adds-quit P s = ([], sym (append-nil s.writes), tt)

  Adds-write : (P : Write → Type 0) (disk : Disk) (w : Write) → P w → Adds P (write disk w)
  Adds-write P disk w h s = (w ∷ [], refl, (h, tt))

  Adds-then :
      (P : Write → Type 0) (m k : Exec (Command W) Stop Unit)
      → Adds P m
      → Adds P k
      → Adds P (m >> k)
  Adds-then P m k first next s = let (ws, here, good) = first s in go (m s) ws here good
    where
      go :
          (p : Result Stop Unit × Command W) (ws : List Write)
          → p.1.writes ≡ s.writes ++ ws
          → All P ws
          → (ws : List Write) × ((continue p.0 (λ _. k) p.1).1.writes ≡ s.writes ++ ws) × All P ws
      go (raise e, t) ws here good = (ws, here, good)
      go (ok a, t) ws here good =
          let (vs, there, fine) = next t in
          (
            ws ++ vs,
            there ∙ ap (λ l. l ++ vs) here ∙ append_assoc s.writes ws vs,
            All-append P ws vs good fine,
          )

  Adds-print :
      (P : Write → Type 0) (m : Exec (Command W) Stop Unit) (c : Color) (t : String)
      → Adds P m
      → Adds P (m >> secho c t)
  Adds-print P m c t first = Adds-then P m (secho c t) first (Adds-secho P c t)

  -- A refusal: a line, and exit code 1.
  Adds-refuse : (P : Write → Type 0) (c : Color) (t : String) → Adds P (secho c t >> quit 1)
  Adds-refuse P c t = Adds-then P (secho c t) (quit 1) (Adds-secho P c t) (Adds-quit P)

-- A write that leaves the content of each existing file alone.
abbrev pub Spares : Disk → Write → Type 0
Spares disk (write_text path content) = disk.exists path ≡ false
Spares disk (mkdir path) = Unit
Spares disk (touch path) = Unit

scaffold-Adds :
    {W : Type 0} (disk : Disk) (output : String)
    → Adds {W = W} (Spares disk) (scaffold disk output false)
unfolding scaffold
scaffold-Adds disk output = elim (Bool-cases (disk.exists output)) [
  | inl there ↦
      rw there
        (Adds-refuse (Spares disk) red (output +++ " already exists; pass --force to overwrite."))
  | inr missing ↦ rw missing (
      Adds-print (Spares disk) (write disk (write_text output template)) green
        ("Wrote starter config to " +++ output)
        (Adds-write (Spares disk) disk (write_text output template) missing))
]

-- Without `--force`, `init` writes to no file that exists.
pub scaffold-Spares :
    {W : Type 0} (disk : Disk) (output : String) (s : Command W)
    → (ws : List Write) × ((scaffold disk output false s).1.writes ≡ s.writes ++ ws)
      × All (Spares disk) ws
scaffold-Spares disk output s = scaffold-Adds disk output s

-- What a test does not keep, it refuses.
filter-none :
    (p : String → Bool) (ts : List (String × String))
    → nonempty (filter p (map (λ t. t.0) ts)) ≡ false
    → All (λ t. p t.0 ≡ false) ts
filter-none p [] h = tt
filter-none p (t ∷ ts) h = ground (arith, filter-none p ts)

-- The writes of the whole project.
abbrev pub project : (String → String) → Disk → Options → List Write
project repr disk o =
    mkdir (versions_dir repr disk o)
    ∷ touch (disk.join (versions_dir repr disk o) ".gitkeep")
    ∷ map (λ t. write_text t.0 t.1) (targets repr disk o)

module _ {W : Type 0} (repr : String → String) (disk : Disk) where
  write_targets-Spares :
      (ts : List (String × String))
      → All (λ t. disk.exists t.0 ≡ false) ts
      → Adds {W = W} (Spares disk) (write_targets repr disk ts)
  unfolding write_targets
  write_targets-Spares [] h = λ s. ([], sym (append-nil s.writes), tt)
  write_targets-Spares ((path, content) ∷ ts) h =
      Adds-then (Spares disk) (write disk (write_text path content)) (write_targets repr disk ts)
        (Adds-write (Spares disk) disk (write_text path content) h.0) (write_targets-Spares ts h.1)

  scaffold_project-Spares :
      (o : Options)
      → All (λ t. disk.exists t.0 ≡ false) (targets repr disk o)
      → Adds {W = W} (Spares disk) (scaffold_project repr disk o)
  unfolding scaffold_project
  scaffold_project-Spares o h =
      let P : Write → Type 0 = Spares disk in
      let versions : Write = mkdir (versions_dir repr disk o) in
      let keep : Write = touch (disk.join (versions_dir repr disk o) ".gitkeep") in
      let files : Exec (Command W) Stop Unit = write_targets repr disk (targets repr disk o) in
      Adds-print P (write disk versions >> write disk keep >> files) green _ (
        Adds-then P (write disk versions >> write disk keep) files
          (Adds-then P (write disk versions) (write disk keep) (Adds-write P disk versions tt)
            (Adds-write P disk keep tt))
          (write_targets-Spares (targets repr disk o) h))

  init_migrations-Adds :
      (o : Options) → o.force ≡ false → Adds {W = W} (Spares disk) (init_migrations repr disk o)
  unfolding init_migrations existing
  init_migrations-Adds o h = elim (Bool-cases ((partition o.metadata_path).1 == "")) [
    | inl bad ↦ rw bad (
        Adds-refuse (Spares disk) red "--metadata must be in the form 'module.path:attribute_name'")
    | inr good ↦ elim (Bool-cases (nonempty (existing repr disk o))) [
      | inl there ↦
          rw (good, there, h)
            (Adds-refuse (Spares disk) red (
              "Already exists (pass --force to overwrite): "
              +++ comma_separated (existing repr disk o)))
      | inr missing ↦
          rw (good, missing)
            (scaffold_project-Spares o (filter-none disk.exists (targets repr disk o) missing))
    ]
  ]

  -- Without `--force`, whatever the disk answers, `init-migrations` only adds to the writes, and
  -- writes to no file that exists.
  pub init_migrations-Spares :
      (o : Options) (s : Command W)
      → o.force ≡ false
      → (ws : List Write) × ((init_migrations repr disk o s).1.writes ≡ s.writes ++ ws)
        × All (Spares disk) ws
  init_migrations-Spares o s h = init_migrations-Adds o h s

  -- With a path that names an attribute, and no file in the way or `--force`, a disk that answers
  -- gets the directory and the files of the project and no more, and the command succeeds.
  pub init_migrations-project :
      (o : Options) (s : Command W)
      → ((ws : List Write) (w : Write) → disk.respond ws w ≡ ok tt)
      → ((partition o.metadata_path).1 == "") ≡ false
      → (nonempty (existing repr disk o) && not o.force) ≡ false
      → ((init_migrations repr disk o s).0 ≡ ok tt)
        × ((init_migrations repr disk o s).1.writes ≡ s.writes ++ project repr disk o)
  unfolding init_migrations scaffold_project write_targets targets
  init_migrations-project o s answers good free =
      simp (good, free, answers, append_assoc) (refl, refl)
