-- ===== src/Plugin/Stopping.antt =====
-- Theorems on internal_start and internal_stop of maubot/plugin_base.py.
use maubot.Base.Rules.{if_both, some_injective}
use maubot.Base.{
  subst, inl, inr, ◌⊎◌, String, ℕ, Option, none, some, List, [], ◌∷◌, ◌++◌, ◌≡◌, refl, Bool, true,
  false, ap, ◌∙◌, sym,
}
use maubot.Plugin.{
  Route, Attribute, Plugin, ClientCall, add_event_handler, add_types, add_marked, add_routes,
  add_attribute, register, internal_start, internal_stop, removals,
}

-- The calls that add the handlers of the list.
unfoldable pub additions : List (ℕ × String) → List ClientCall
additions [] = []
additions ((f, t) ∷ rest) = add_event_handler t f ∷ additions rest

additions-append : (xs ys : List (ℕ × String)) → additions (xs ++ ys) ≡ additions xs ++ additions ys
unfolding additions
additions-append [] ys = refl
additions-append ((f, t) ∷ xs) ys = ap (λ r. add_event_handler t f ∷ r) (additions-append xs ys)

-- The client was called for exactly the handlers that are kept for the stop.
IsKept : Plugin → Type 0
IsKept p = p.calls ≡ additions p.handlers_at_startup

add_types-IsKept :
    (f : ℕ) (types : List String) (p : Plugin) → IsKept p → IsKept (add_types f types p)
unfolding add_types IsKept additions
add_types-IsKept f [] p h = h
add_types-IsKept f (t ∷ ts) p h = add_types-IsKept f ts _ (
    ap (λ r. r ++ (add_event_handler t f ∷ [])) h
    ∙ sym (additions-append p.handlers_at_startup ((f, t) ∷ [])))

add_marked-IsKept :
    (f : ℕ) (mark : Option Bool) (types : Option (List String)) (p : Plugin)
    → IsKept p
    → IsKept (add_marked f mark types p)
unfolding add_marked
add_marked-IsKept f (some true) (some types) p h = add_types-IsKept f types p h
add_marked-IsKept f (some true) none p h = h
add_marked-IsKept f (some false) types p h = h
add_marked-IsKept f none types p h = h

add_routes-IsKept :
    (f : ℕ) (routes : Option (List Route)) (app : Option (List (Route × ℕ))) (p : Plugin)
    → IsKept p
    → IsKept (add_routes f routes app p)
unfolding add_routes IsKept
add_routes-IsKept f (some routes) (some app) p h = h
add_routes-IsKept f (some routes) none p h = h
add_routes-IsKept f none app p h = h

register-IsKept : (list : List Attribute) (p : Plugin) → IsKept p → IsKept (register list p)
unfolding register add_attribute
register-IsKept [] p h = h
register-IsKept (a ∷ rest) p h = register-IsKept rest _ (
    if_both IsKept a.gettable
      (add_routes-IsKept a.value a.web_handler _ _
        (add_marked-IsKept a.value a.event_handler a.event_types p h))
      h)

none-IsKept : (p : Plugin) → p.calls ≡ [] → p.handlers_at_startup ≡ [] → IsKept p
unfolding IsKept additions
none-IsKept p fresh empty = fresh ∙ ap additions (sym empty)

kept_calls : (p : Plugin) → IsKept p → p.calls ≡ additions p.handlers_at_startup
unfolding IsKept
kept_calls p h = h

cleared :
    (app : Option (List (Route × ℕ)))
    → let after : Option (List (Route × ℕ)) = elim app [ none ↦ none | some routes ↦ some [] ] in
      (after ≡ none) ⊎ (after ≡ some [])
cleared none = inl refl
cleared (some routes) = inr refl

-- A plugin that was started and is stopped, both without an error of its own hooks, has called the
-- client to add its event handlers and then, for the same handlers and in the same order, to remove
-- them; and it has no route left in its web app.
pub internal_stop-removes :
    (p p' p'' : Plugin)
    → p.calls ≡ []
    → p.handlers_at_startup ≡ []
    → internal_start true p ≡ some p'
    → internal_stop true p' ≡ some p''
    → (p''.calls ≡ additions p'.handlers_at_startup ++ removals p'.handlers_at_startup)
      × ((p''.webapp ≡ none) ⊎ (p''.webapp ≡ some []))
unfolding internal_start internal_stop
internal_stop-removes p p' p'' fresh empty starts stops =
    let kept =
      subst IsKept (some_injective starts)
        (register-IsKept p.attributes p (none-IsKept p fresh empty)) in
    (
      sym (ap (λ q. q.calls) (some_injective stops))
          ∙ ap (λ c. c ++ removals p'.handlers_at_startup) (kept_calls p' kept),
      subst (λ q. (q.webapp ≡ none) ⊎ (q.webapp ≡ some [])) (some_injective stops)
          (cleared p'.webapp),
    )
