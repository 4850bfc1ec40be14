-- ===== src/Routing/Laws.antt =====
-- packages/payments/src/routing.ts: which provider `selectProvider` finds, and when it finds none.
use booking_lumin_checkout.Base.{
  ◌≤◌, ◌≡◌, refl, sym, ap, subst, ◌∙◌, ◌⊎◌, ◌↔◌, inl, inr, eq_iff, Bool, true, false, Option, none,
  some, List, [], ◌∷◌, length, is_empty, keep, All, All-imp, keep-All, Bool-cases, Option-cases,
  ◌==◌, String,
}
use mathlib.Core.List.{Memᴰ}
use booking_lumin_checkout.Routing.{
  PaymentMethod, ProviderCapability, RoutingRequest, NoProviderReason, matched, no_provider, serves,
  presents, sort, preferred, route, ranked_first, select_provider,
}
use booking_lumin_checkout.Base.Members.{find_sound, find-none}
use booking_lumin_checkout.Routing.Meets.{Meets, Presents, serves-Meets, Meets-serves, Presents-iff}
use booking_lumin_checkout.Routing.Ranking.{
  All-self, find-All, sort-All, breadth, LeastFirst, sort-LeastFirst, sort_inverse, keep_inverse,
  keep_both,
}

module _ (request : RoutingRequest) (capabilities : List ProviderCapability) where
  abbrev method : Option PaymentMethod
  method = request.method_preference

  abbrev candidates : List ProviderCapability
  candidates = keep (serves request) capabilities

  abbrev chosen : Option ProviderCapability
  chosen = preferred request.tenant_preference candidates

  -- A candidate: it is registered and meets the hard requirements.
  abbrev Able : ProviderCapability → Type 0
  Able c = Memᴰ c capabilities × (serves request c ≡ true)

  -- It presents the method, and no provider that meets the requirements and presents it serves fewer
  -- countries.
  abbrev IsBest : ProviderCapability → Type 0
  IsBest c =
      Presents c method
      × All (λ d. Meets request d → Presents d method → length c.countries ≤ length d.countries)
          capabilities

  -- The tenant prefers the provider by its name.
  abbrev IsPreferred : Option String → ProviderCapability → Type 0
  IsPreferred none c = ⊥
  IsPreferred (some name) c = (c.provider ≡ name) × ((name == "") ≡ false)

  -- The tenant prefers none, or none that meets the requirements.
  abbrev NonePreferred : Option String → Type 0
  NonePreferred none = Unit
  NonePreferred (some name) =
      (name ≡ "") ⊎ All (λ d. Meets request d → (d.provider == name) ≡ false) capabilities

  pub record IsRouted (c : ProviderCapability) (satisfied : Bool) : Type 0 where
    pub listed : Memᴰ c capabilities
    pub able : Meets request c
    pub told : (satisfied ≡ true) ↔ Presents c method
    pub choice :
        IsPreferred request.tenant_preference c
        ⊎ (NonePreferred request.tenant_preference × IsBest c)

  candidates-Able : All Able candidates
  candidates-Able = keep_both _ (serves request) capabilities (All-self capabilities)

  chosen-Able : {c : ProviderCapability} → chosen ≡ some c → Able c
  unfolding preferred
  chosen-Able e = go request.tenant_preference e
    where
      go : (p : Option String) {c : ProviderCapability} → preferred p candidates ≡ some c → Able c
      go none e = absurd (cc)
      go (some name) e = elim (Bool-cases (name == "")) [
        | inl t ↦ absurd (cc (rw t at e))
        | inr t ↦ find-All Able _ candidates candidates-Able (rw t at e)
      ]

  chosen-IsPreferred :
      {c : ProviderCapability} → chosen ≡ some c → IsPreferred request.tenant_preference c
  unfolding preferred
  chosen-IsPreferred e = go request.tenant_preference e
    where
      go :
          (p : Option String) {c : ProviderCapability}
          → preferred p candidates ≡ some c
          → IsPreferred p c
      go none e = absurd (cc)
      go (some name) {c} e = elim (Bool-cases (name == "")) [
        | inl t ↦ absurd (cc (rw t at e))
        | inr t ↦
            let (_, same) = find_sound (λ d. d.provider == name) candidates (rw t at e) in
            ((eq_iff c.provider name).0 same, t)
      ]

  chosen-NonePreferred : chosen ≡ none → NonePreferred request.tenant_preference
  unfolding preferred
  chosen-NonePreferred e = go request.tenant_preference e
    where
      go : (p : Option String) → preferred p candidates ≡ none → NonePreferred p
      go none e = tt
      go (some name) e = elim (Bool-cases (name == "")) [
        | inl t ↦ inl ((eq_iff name "").0 t)
        | inr t ↦ inr (
            All-imp _ _ capabilities (λ d h m. h (Meets-serves request d m))
              (keep_inverse _ (serves request) capabilities
                (find-none (λ d. d.provider == name) candidates (rw t at e))))
      ]

  abbrev satisfiers : List ProviderCapability
  satisfiers = keep (λ c. presents c method) candidates

  first-IsRouted :
      chosen ≡ none
      → (cs : List ProviderCapability) → cs ≡ sort method satisfiers
      → {c : ProviderCapability} {b : Bool} → ranked_first method cs ≡ matched c b
      → IsRouted c b
  unfolding LeastFirst
  first-IsRouted none_chosen [] e h = absurd (cc)
  first-IsRouted none_chosen (w ∷ ws) e {c} {b} h =
      let same : w ≡ c = cc in
      let able = subst (All _) (sym e) (
        sort-All _ method satisfiers
          (keep_both Able (λ d. presents d method) candidates candidates-Able)) in
      let least : LeastFirst (w ∷ ws) =
        subst LeastFirst (sym e)
          (sort-LeastFirst method satisfiers (keep-All (λ d. presents d method) candidates)) in
      let everywhere = keep_inverse _ (serves request) capabilities (
        keep_inverse _ (λ d. presents d method) candidates
          (sort_inverse (λ d. breadth w ≤ breadth d) method satisfiers (subst (All _) e least))) in
      subst (λ x. IsRouted x b) same
        (record {
          listed = able.0.0.0;
          able = serves-Meets request w able.0.0.1;
          told = subst (λ b. (b ≡ true) ↔ Presents w method) (cc) (Presents-iff w method);
          choice = inr (
            chosen-NonePreferred none_chosen,
            (
              (Presents-iff w method).0 able.0.1,
              All-imp _ _ capabilities
                  (λ d h m p. h (Meets-serves request d m) ((Presents-iff d method).1 p))
                  everywhere,
            ),
          );
        })

  route-IsRouted :
      {c : ProviderCapability} {b : Bool}
      → route request candidates chosen ≡ matched c b
      → IsRouted c b
  unfolding route
  route-IsRouted {c} {b} h = elim (Option-cases chosen) [
    | inl e ↦ first-IsRouted e (sort method satisfiers) refl (rw (e, route) at h)
    | inr (w, e) ↦
        let h' : matched w (presents w method) ≡ matched c b = rw (e, route) at h in
        let same : w ≡ c = cc in
        let said : presents w method ≡ b = cc in
        let (listed, able) = chosen-Able (e ∙ ap some same) in
        record {
          listed = listed;
          able = serves-Meets request c able;
          told =
              subst (λ b. (b ≡ true) ↔ Presents c method) (rw same at said) (Presents-iff c method);
          choice = inl (chosen-IsPreferred (e ∙ ap some same));
        }
  ]

  -- A provider that is found is registered, has the country and currency of the request and its
  -- geography, if any, in its lists, and it is told truly whether it presents the method asked for. It
  -- has the name that the tenant prefers, or no provider that meets these requirements has that name;
  -- and then it presents the method, and none that meets them and presents it serves fewer countries.
  pub select_provider-IsRouted :
      {c : ProviderCapability} {satisfied : Bool}
      → select_provider request capabilities ≡ matched c satisfied
      → IsRouted c satisfied
  unfolding select_provider
  select_provider-IsRouted h = elim (Bool-cases (is_empty candidates)) [
    | inl e ↦ absurd (cc (rw e at h))
    | inr e ↦ route-IsRouted (rw e at h)
  ]

  none_left : (cs : List ProviderCapability) → is_empty cs ≡ true → All (λ c. true ≡ false) cs
  none_left [] h = tt
  none_left (c ∷ cs) h = absurd (cc)

  first_none :
      (cs : List ProviderCapability) {r : NoProviderReason}
      → ranked_first method cs ≡ no_provider r
      → All (λ c. true ≡ false) cs
  first_none [] h = tt
  first_none (c ∷ cs) h = absurd (cc)

  route_none :
      {r : NoProviderReason}
      → route request candidates chosen ≡ no_provider r
      → All (λ c. presents c method ≡ true → true ≡ false) candidates
  unfolding route
  route_none h = elim (Option-cases chosen) [
    | inl e ↦
        keep_inverse _ (λ c. presents c method) candidates
          (sort_inverse _ method satisfiers
            (first_none (sort method satisfiers) (rw (e, route) at h)))
    | inr (w, e) ↦ absurd (cc (rw (e, route) at h))
  ]

  -- Where no provider is found, each of the registered ones misses a hard requirement or does not
  -- present the method asked for.
  pub select_provider_none :
      {r : NoProviderReason}
      → select_provider request capabilities ≡ no_provider r
      → All (λ c. (serves request c ≡ false) ⊎ (presents c method ≡ false)) capabilities
  unfolding select_provider
  select_provider_none h =
      All-imp _ _ capabilities
        (λ c no. elim (Bool-cases (serves request c)) [
          | inr e ↦ inl e
          | inl e ↦ elim (Bool-cases (presents c method)) [
            | inr f ↦ inr f
            | inl f ↦ absurd (cc (no e f))
          ]
        ])
        refused
    where
      refused :
          All (λ c. serves request c ≡ true → presents c method ≡ true → true ≡ false) capabilities
      refused =
          keep_inverse _ (serves request) capabilities (elim (Bool-cases (is_empty candidates)) [
            | inl e ↦ All-imp _ _ candidates (λ c no _. no) (none_left candidates e)
            | inr e ↦ route_none (rw e at h)
          ])
