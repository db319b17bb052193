-- ===== src/Cli/Overwriting.antt =====
-- Theorems on the archive that the command build writes (maubot/cli/commands/build.py).
use maubot.Base.{
  ap, String, Bool, true, false, Option, none, some, refl, List, [], ◌∷◌, ◌++◌, ◌≡◌, ◌≢◌, arith,
  eq_iff, ap, subst, sym,
}
use maubot.Base.Text.{append}
use maubot.World.{PluginMeta}
use mathlib.Core.List.{Memᴰ}
use maubot.Cli.Build.{
  Disk, MetaFile, read_meta, Entry, Output, to, declined, failed, replace, file, as_files, to_file,
  read_output_path, module_entries, all_modules, write_plugin, write_to, build_plugin, build,
}

Mem-append_left : (e : Entry) (xs ys : List Entry) → Memᴰ e xs → Memᴰ e (xs ++ ys)
Mem-append_left e [] ys m = elim m [ ]
Mem-append_left e (x ∷ xs) ys (Memᴰ.head p) = Memᴰ.head p
Mem-append_left e (x ∷ xs) ys (Memᴰ.tail m) = Memᴰ.tail (Mem-append_left e xs ys m)

Mem-append_right : (e : Entry) (xs ys : List Entry) → Memᴰ e ys → Memᴰ e (xs ++ ys)
Mem-append_right e [] ys m = m
Mem-append_right e (x ∷ xs) ys m = Memᴰ.tail (Mem-append_right e xs ys m)

Mem-as_files : (p : String) (ps : List String) → Memᴰ p ps → Memᴰ (file p) (as_files ps)
unfolding as_files
Mem-as_files p [] m = elim m [ ]
Mem-as_files p (q ∷ qs) (Memᴰ.head e) = Memᴰ.head (ap file e)
Mem-as_files p (q ∷ qs) (Memᴰ.tail m) = Memᴰ.tail (Mem-as_files p qs m)

module _ (d : Disk) (extra_files : PluginMeta → List String) where
  -- A module that is on the disk, as a file or as a package, with the file that the archive gets.
  pub data IsModule (m : String) : String → Type 0 where
    as_file : (p : String) → p ≡ append m ".py" → d.is_file (append m ".py") ≡ true → IsModule m p
    as_package :
        (p : String)
        → d.is_file (append m ".py") ≡ false
        → d.is_dir m ≡ true
        → d.is_file (append m "/__init__.py") ≡ true
        → Memᴰ p (d.walk m)
        → IsModule m p

  Mem-module_entries :
      (m p : String) → IsModule m p → Memᴰ (file p) (module_entries d extra_files m)
  unfolding module_entries
  Mem-module_entries m p (as_file _ e there) = rw there (Memᴰ.head (ap file e))
  Mem-module_entries m p (as_package _ no_file dir init inside) =
      rw (no_file, dir, init) (Mem-as_files p (d.walk m) inside)

  Mem-all_modules :
      (m p : String) (ms : List String)
      → Memᴰ m ms
      → IsModule m p
      → Memᴰ (file p) (all_modules d extra_files ms)
  unfolding all_modules
  Mem-all_modules m p [] l h = elim l [ ]
  Mem-all_modules m p (n ∷ ns) (Memᴰ.head e) h =
      Mem-append_left (file p) (module_entries d extra_files n) _
        (subst (λ k. Memᴰ (file p) (module_entries d extra_files k)) e (Mem-module_entries m p h))
  Mem-all_modules m p (n ∷ ns) (Memᴰ.tail l) h =
      Mem-append_right _ (module_entries d extra_files n) _ (Mem-all_modules m p ns l h)

  Mem-write_plugin :
      (meta : PluginMeta) (m p : String)
      → Memᴰ m meta.modules
      → IsModule m p
      → Memᴰ (file p) (write_plugin d extra_files meta)
  unfolding write_plugin
  Mem-write_plugin meta m p l h =
      Memᴰ.tail (Mem-append_left _ _ _ (Mem-all_modules m p meta.modules l h))

  replace-agreed :
      (answer : Option Bool) (named path : String) (removed : Option String)
      → replace d extra_files answer named ≡ to path removed
      → (answer ≡ some true) × (removed ≡ some named) × (path ≡ d.abspath named)
  unfolding replace
  replace-agreed none named path removed e = cc
  replace-agreed (some false) named path removed e = cc
  replace-agreed (some true) named path removed e = (refl, ground arith, ground arith)

  read_output_path-asks :
      (meta : PluginMeta) (named path : String) (removed : Option String)
      → named ≢ ""
      → d.exists named ≡ true
      → d.is_dir named ≡ false
      → read_output_path d extra_files (some named) meta ≡ to path removed
      → (d.override named ≡ some true) × (removed ≡ some named) × (path ≡ d.abspath named)
  unfolding read_output_path
  read_output_path-asks meta named path removed e there no_dir h =
      replace-agreed (d.override named) named path removed (ground (arith, eq_iff named ""))

module _ (view : String → (removed written : Option String) → Disk) (cwd root : String)
    (extra_files : PluginMeta → List String) where
  -- What a file that was written says of the output that it was written for.
  write_to-file :
      (o : Output) (meta : PluginMeta) (upload again : Bool) (path : String) (es : List Entry)
      (removed : Option String)
      → write_to view cwd root extra_files o meta upload ≡ to_file path es removed again
      → (o ≡ to path removed) × (es ≡ write_plugin (view root removed (some path)) extra_files meta)
  unfolding write_to
  write_to-file declined meta upload again path es removed e = cc
  write_to-file failed meta upload again path es removed e = cc
  write_to-file (to output old) meta upload again path es removed e = (cc, cc)

  -- Where the user names a file that is there already, the command writes its archive only if the user
  -- agrees, and then to that file, which it removes first; the archive holds the file of every module of
  -- the metadata that is in the plugin's directory, as a file or as a package, once the old file is
  -- removed and the new one is open.
  pub build-asks :
      (meta : PluginMeta) (named : String) (upload again : Bool) (path : String) (es : List Entry)
      (removed : Option String)
      → named ≢ ""
      → (view cwd none none).exists named ≡ true
      → (view cwd none none).is_dir named ≡ false
      → build view cwd root extra_files (MetaFile.valid meta) (some named) upload
        ≡ to_file path es removed again
      → ((view cwd none none).override named ≡ some true)
        × (removed ≡ some named)
        × (path ≡ (view cwd none none).abspath named)
        × ((m p : String)
            → Memᴰ m meta.modules
            → IsModule (view root removed (some path)) extra_files m p
            → Memᴰ (file p) es)
  unfolding build read_meta build_plugin
  build-asks meta named upload again path es removed e there no_dir built =
      let d = view cwd none none in
      let o = read_output_path d extra_files (some named) meta in
      let wrote : write_to view cwd root extra_files o meta upload ≡ to_file path es removed again =
        ground (arith, eq_iff named "") in
      let (target, same) = write_to-file o meta upload again path es removed wrote in
      let (agreed, took, goal) =
        read_output_path-asks d extra_files meta named path removed e there no_dir target in
      (
        agreed,
        took,
        goal,
        λ m p l h.
            subst (λ xs. Memᴰ (file p) xs) (sym same)
              (Mem-write_plugin (view root removed (some path)) extra_files meta m p l h),
      )
