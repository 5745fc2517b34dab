-- ===== src/Policy/Selection/Wanted.antt =====
-- Which routes `get_route_match` selects.
use nmstate.Base.{
  if◌then◌else◌, Bool-cases, Option-cases, unwrap_or, retain, Memᴰ-retain, retain-Memᴰ, ◌==◌,
  ==_refl, ==→≡, Text, codes, ℕ, ◌≡◌, ◌↔◌, inl, inr, true, Option, some, List, [], ◌∷◌, Memᴰ,
  nat_eq, bool_eq, list_eq, option_eq, int_eq, pair_eq,
}
use nmstate.Error.{ok, bind-eq-ok}
use nmstate.Json.{Value, Fields, get, null, bool, number, string, array, object}
use nmstate.Route.{RouteEntry, Routes}
use nmstate.RouteRule.{RouteRuleEntry}
use nmstate.Policy.Json.{
  search_item, is_wanted, get_value_from_json, value_to_string, as_object, unless_none,
}
use nmstate.Policy.Selection.{select_routes, get_route_match, running_only, config_only}

-- The JSON form of the entry is an object with a value at the key, whose text is the one given.
unfoldable pub HoldsAt {ℓ} :
    {A : Type ℓ} → (A → Option Value) → (Value → Text) → Text → Text → A → Type 0
HoldsAt to_value json_text key value x =
    (m : Fields) × (v : Value) × (to_value x ≡ some (object m))
    × (get key m ≡ some v)
    × (value_to_string json_text v ≡ value)

module _ {ℓ} {A : Type ℓ} (to_value : A → Option Value) (json_text : Value → Text) where
  as_object-some : (v : Value) (m : Fields) → as_object v ≡ some m → v ≡ object m
  as_object-some (object n) m h = cc
  as_object-some null m h = cc
  as_object-some (bool b) m h = cc
  as_object-some (number n) m h = cc
  as_object-some (string s) m h = cc
  as_object-some (array xs) m h = cc

  is_wanted_iff :
      (key value line : Text) (pos : ℕ) (x : A)
      → (is_wanted to_value json_text (key ∷ []) value line pos x ≡ true)
        ↔ HoldsAt to_value json_text key value x
  unfolding is_wanted HoldsAt get_value_from_json
  is_wanted_iff key value line pos x = (
    λ h. elim (Option-cases (to_value x)) [
      | inl e ↦ cc (rw (is_wanted, e) at h)
      | inr (v, e) ↦ elim (Option-cases (as_object v)) [
        | inl f ↦ cc (rw (is_wanted, e, f) at h)
        | inr (m, f) ↦ elim (Option-cases (get key m)) [
          | inl g ↦ cc (rw (is_wanted, e, f, get_value_from_json, g) at h)
          | inr (cur, g) ↦
              let there : (value_to_string json_text cur == value) ≡ true =
                rw (is_wanted, e, f, get_value_from_json, g) at h in
              (
                m,
                cur,
                cc (e, as_object-some v m f),
                g,
                ==→≡ (value_to_string json_text cur) value there,
              )
        ]
      ]
    ],
    λ (m, cur, e, g, same). rw (is_wanted, e, get_value_from_json, g) (rw same (==_refl value)),
  )

  kept :
      (line : Text) (pos : ℕ) (xs out : List A)
      → unless_none to_value json_text line pos xs ≡ ok out
      → xs ≡ out
  kept line pos [] out h = cc
  kept line pos (x ∷ xs) out h = cc

  search_item_iff :
      (key value line : Text) (pos : ℕ) (items out : List A) (x : A)
      → search_item to_value json_text (key ∷ []) value items line pos ≡ ok out
      → Memᴰ x out ↔ (Memᴰ x items × HoldsAt to_value json_text key value x)
  unfolding search_item
  search_item_iff key value line pos items out x h =
      let wanted = is_wanted to_value json_text (key ∷ []) value line pos in
      let same : retain wanted items ≡ out = kept line pos (retain wanted items) out h in
      (
        λ m.
            let (n, e) = Memᴰ-retain wanted items (rw (← same) at m) in
            (n, (is_wanted_iff key value line pos x).0 e),
        λ (m, e). rw (← same) (retain-Memᴰ wanted m ((is_wanted_iff key value line pos x).1 e)),
      )

abbrev pub chosen : Text → Routes → List RouteEntry
chosen kind routes =
    if kind == codes "running" then unwrap_or routes.running [] else unwrap_or routes.config []

module _ (route_to_value : RouteEntry → Option Value) (route_from_value : Value → Option RouteEntry)
    (rule_to_value : RouteRuleEntry → Option Value)
    (rule_from_value : Value → Option RouteRuleEntry) (json_text : Value → Text) where
  -- When `get_route_match` succeeds on a list of routes and a key, a route is selected exactly when
  -- it is in that list and its JSON form has, at that key, a value with the given text.
  pub get_route_match_iff :
      (kind key value : Text) (routes : Routes) (line : Text) (pos : ℕ) (out : Routes)
      (r : RouteEntry)
      → get_route_match route_to_value route_from_value rule_to_value rule_from_value json_text
          (kind ∷ key ∷ [])
          value
          routes
          line
          pos
        ≡ ok out
      → Memᴰ r (chosen kind out)
        ↔ (Memᴰ r (chosen kind routes) × HoldsAt route_to_value json_text key value r)
  unfolding get_route_match select_routes
  get_route_match_iff kind key value routes line pos out r h =
      elim (Bool-cases (kind == codes "running")) [
        | inl e ↦
            let (found, f, g) =
              bind-eq-ok
                (search_item route_to_value json_text (key ∷ []) value (unwrap_or routes.running [])
                  line pos)
                (λ found. ok (running_only found)) (rw (get_route_match, select_routes, e) at h) in
            let same : running_only found ≡ out = cc in
            rw (e, ← same)
              (search_item_iff route_to_value json_text key value line pos
                (unwrap_or routes.running []) found r f)
        | inr e ↦ elim (Bool-cases (kind == codes "config")) [
          | inl c ↦
              let (found, f, g) =
                bind-eq-ok
                  (search_item route_to_value json_text (key ∷ []) value
                    (unwrap_or routes.config []) line pos)
                  (λ found. ok (config_only found))
                  (rw (get_route_match, select_routes, e, c) at h) in
              let same : config_only found ≡ out = cc in
              rw (e, ← same)
                (search_item_iff route_to_value json_text key value line pos
                  (unwrap_or routes.config []) found r f)
          | inr c ↦ cc (rw (get_route_match, select_routes, e, c) at h)
        ]
      ]
