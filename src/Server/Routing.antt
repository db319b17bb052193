-- ===== src/Server/Routing.antt =====
-- Theorems on the way of a request to the web app of an instance (maubot/server.py).
use Prim.Native.Char.{code}
use text.Mathlib.TextEquality.{Char-path}
use maubot.Base.{
  ◌-◌, String, ◌==◌, Bool, true, false, Option, none, some, List, [], ◌∷◌, ◌≡◌, refl, arith,
  Bool-cases, inl, inr, eq_iff, eq_refl, if◌then◌else◌, nat_eq, ap, sym, ◌∙◌, subst, default, ◌≢◌,
}
use maubot.Base.Rules.{nat_eq_sound, eq_sound, if_both}
use maubot.Base.Dict.{Dict, lookup, insert, erase, lookup-insert, lookup-erase}
use maubot.Base.Texts.{begins_with-append, size-slashed, size-append, drop-append, append_assoc}
use maubot.Base.Text.{append, size, drop, begins_with}
use maubot.World.{World}
use maubot.World.Env.{Env}
use maubot.Server.{subpath, get_instance_subapp, remove_instance_webapp}
use maubot.Plugin.WebApp.{handle_plugin_path}

-- The text has no slash.
unfoldable pub slashless : String → Bool
slashless String.[] = true
slashless (String.◌∷◌ c s) = let rest = slashless s in if nat_eq (code c) b'/' then false else rest

-- Ids without slashes, each followed by one, start alike only where they are the same.
begins_with-slashed :
    (a b rest : String)
    → slashless a ≡ true
    → slashless b ≡ true
    → begins_with (append a (append "/" rest)) (append b "/") ≡ true
    → a ≡ b
unfolding begins_with append slashless
begins_with-slashed String.[] String.[] rest ha hb e = refl
begins_with-slashed String.[] (String.◌∷◌ d b) rest ha hb e = ground arith
begins_with-slashed (String.◌∷◌ c a) String.[] rest ha hb e = ground arith
begins_with-slashed (String.◌∷◌ c a) (String.◌∷◌ d b) rest ha hb e = cc (
  Char-path c d (nat_eq_sound (code c) (code d) (ground arith)),
  begins_with-slashed a b rest (ground arith) (ground arith) (ground arith),
)

module _ (base : String) where
  abbrev pub key : String → String
  key id = append base (append id "/")

  abbrev pub AreRoutes {ℓ} : {A : Type ℓ} → Dict A → Type 0
  AreRoutes [] = Unit {0}
  AreRoutes ((k, app) ∷ rest) =
      ((id : String) × (slashless id ≡ true) × (k ≡ key id)) × AreRoutes rest

  -- the path of a request to an instance
  abbrev pub request : String → String → String
  request id rest = append base (append id (append "/" rest))

  drop-key : (id rest : String) → drop (size (key id) - 1) (request id rest) ≡ append "/" rest
  drop-key id rest =
      let long : size (key id) - 1 ≡ size (append base id) =
        omega (arith, size-append base (append id "/"), size-slashed id, size-append base id) in
      rw (long, ← (append_assoc base id (append "/" rest))) (drop-append (append base id) _)

  handle-here :
      (id rest : String)
      → (begins_with (request id rest) (key id) ≡ true)
        × (drop (size (key id) - 1) (request id rest) ≡ append "/" rest)
  unfolding begins_with append
  handle-here id rest = (
    begins_with-append base (append id (append "/" rest)) (append id "/")
        ∙ begins_with-append id (append "/" rest) "/",
    drop-key id rest,
  )

  abbrev sees {ℓ} : {A : Type ℓ} → String → Option A → Option (A × String)
  sees rest none = none
  sees rest (some app) = some (app, append "/" rest)

  -- The loop over the routes finds what a lookup of the instance's own path finds.
  handle-lookup {ℓ} :
      {A : Type ℓ} (routes : Dict A) (id rest : String)
      → AreRoutes routes
      → slashless id ≡ true
      → handle_plugin_path routes (request id rest) ≡ sees rest (lookup (key id) routes)
  unfolding handle_plugin_path lookup
  handle-lookup [] id rest h plain = refl
  handle-lookup ((k, app) ∷ routes) id rest ((own, bare, same), h) plain =
      elim (Bool-cases (begins_with (request id rest) k)) [
        | inl hit ↦
            let alike = subst (λ j. begins_with (request id rest) j ≡ true) same hit in
            let named : id ≡ own = begins_with-slashed id own rest plain bare (
              sym (begins_with-append base (append id (append "/" rest)) (append own "/"))
              ∙ alike) in
            let own_key : k ≡ key id = same ∙ ap key (sym named) in
            rw hit (rw (own_key, drop-key id rest, eq_refl (key id)) refl)
        | inr miss ↦
            let starts = (handle-here id rest).0 in
            let differs : (k == key id) ≡ false = ground (arith, eq_iff k (key id)) in
            rw (miss, differs) (handle-lookup routes id rest h plain)
      ]

  key_injective : (a b : String) → slashless a ≡ true → slashless b ≡ true → key a ≡ key b → a ≡ b
  key_injective a b ha hb e = begins_with-slashed a b "" ha hb (
      sym (begins_with-append base (append a (append "/" "")) (append b "/"))
      ∙ subst (λ j. begins_with (request a "") j ≡ true) e (handle-here a "").0)

module _ (env : Env) where
  abbrev pub IsRouted : World → Type 0
  IsRouted w = AreRoutes env.plugin_base_path w.plugin_routes

  insert-AreRoutes :
      (id : String) (app : List String) (routes : Dict (List String))
      → slashless id ≡ true
      → AreRoutes env.plugin_base_path routes
      → AreRoutes env.plugin_base_path (insert (subpath env id) app routes)
  unfolding insert
  insert-AreRoutes id app [] plain h = ((id, plain, refl), tt)
  insert-AreRoutes id app ((k, other) ∷ rest) plain (one, h) =
      if_both (λ (r : Dict (List String)). AreRoutes env.plugin_base_path r) (k == subpath env id)
        (one, h) (one, insert-AreRoutes id app rest plain h)

  erase-AreRoutes :
      (k : String) (routes : Dict (List String))
      → AreRoutes env.plugin_base_path routes
      → AreRoutes env.plugin_base_path (erase k routes)
  unfolding erase
  erase-AreRoutes k [] h = h
  erase-AreRoutes k ((j, other) ∷ rest) (one, h) =
      let left = erase-AreRoutes k rest h in
      if_both (λ (r : Dict (List String)). AreRoutes env.plugin_base_path r) (j == k) left
        (one, left)

  get_instance_subapp-found :
      (id : String) (w : World) (found : Option (List String))
      → lookup (subpath env id) w.plugin_routes ≡ found
      → slashless id ≡ true
      → IsRouted w
      → IsRouted (get_instance_subapp env id w).1
        × ((j : String)
            → lookup j (get_instance_subapp env id w).1.plugin_routes
              ≡ (if subpath env id == j then some (default [] found) else lookup j w.plugin_routes))
  unfolding get_instance_subapp
  get_instance_subapp-found id w none e plain h = rw e (
    insert-AreRoutes id [] w.plugin_routes plain h,
    λ j. lookup-insert (subpath env id) j [] w.plugin_routes,
  )
  get_instance_subapp-found id w (some app) e plain h =
      rw e (h, λ j. ground (arith, eq_iff (subpath env id) j))

  subpath-apart :
      (a b : String)
      → slashless a ≡ true
      → slashless b ≡ true
      → b ≢ a
      → (subpath env a == subpath env b) ≡ false
  subpath-apart a b ha hb differs = elim (Bool-cases (subpath env a == subpath env b)) [
    | inl same ↦
        absurd (differs (sym (key_injective env.plugin_base_path a b ha hb (eq_sound _ _ same))))
    | inr other ↦ other
  ]

  -- Once an instance has its web app, a request below the path of the instance goes to that app, which
  -- sees the path from the last slash of that part on; once the app is removed, the request finds
  -- nothing, and requests to the other instances go where they went before. The ids have no slashes,
  -- and the routes before are those of such ids, which both operations keep.
  pub handle-get_instance_subapp :
      (id : String) (w : World)
      → slashless id ≡ true
      → IsRouted w
      → let w₁ = (get_instance_subapp env id w).1 in
        let w₂ = (remove_instance_webapp env id w₁).1 in
        let app = default [] (lookup (subpath env id) w.plugin_routes) in
        let path = request env.plugin_base_path in
        IsRouted w₁
        × IsRouted w₂
        × ((rest : String)
            → handle_plugin_path w₁.plugin_routes (path id rest) ≡ some (app, append "/" rest))
        × ((rest : String) → handle_plugin_path w₂.plugin_routes (path id rest) ≡ none)
        × ((other rest : String)
            → slashless other ≡ true
            → other ≢ id
            → handle_plugin_path w₂.plugin_routes (path other rest)
              ≡ handle_plugin_path w.plugin_routes (path other rest))
  unfolding remove_instance_webapp
  handle-get_instance_subapp id w plain h =
      let base = env.plugin_base_path in
      let (first, stored) = get_instance_subapp-found id w _ refl plain h in
      let routes = (get_instance_subapp env id w).1.plugin_routes in
      let second = erase-AreRoutes (subpath env id) routes first in
      (
        first,
        second,
        λ rest.
            handle-lookup base routes id rest first plain
            ∙ rw (stored (subpath env id), eq_refl (subpath env id)) refl,
        λ rest.
            handle-lookup base (erase (subpath env id) routes) id rest second plain
            ∙ rw (lookup-erase (subpath env id) (subpath env id) routes, eq_refl (subpath env id))
                refl,
        λ other rest bare differs.
            let apart : (subpath env id == subpath env other) ≡ false =
              subpath-apart id other plain bare differs in
            handle-lookup base (erase (subpath env id) routes) other rest second bare
            ∙ (rw
                (
                  lookup-erase (subpath env id) (subpath env other) routes,
                  apart,
                  stored (subpath env other),
                  apart,
                )
                (sym (handle-lookup base w.plugin_routes other rest h bare))),
      )
