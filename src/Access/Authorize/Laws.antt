-- ===== src/Access/Authorize/Laws.antt =====
-- Who is allowed to do what.
use atlas_manager.Base.{
  ◌≡◌, ◌≢◌, refl, sym, ap, str_eq, ◌⊎◌, inl, inr, ◌↔◌, Bool, true, false, not, List, [], ◌∷◌, Str,
  Result, ok, err, ◌>>=◌, ◌>>◌, throw_if, arith, Bool-cases,
}
use atlas_manager.Base.Values.{Value}
use atlas_manager.Base.Platform.{Dates, is_canonical_timestamp}
use atlas_manager.Access.Errors.{AccessError, invalid_evaluation_timestamp}
use atlas_manager.Access.Permission.{Permission}
use atlas_manager.Access.Role.{
  Role, power_operator, scheduler_operator, auditor, service_operator, backup_operator,
  audit_operator, administrator,
}
use atlas_manager.Access.Operation.{
  Operation, create_operation, permission_for_operation, role_has_permission,
  request_machine_shutdown,
}
use atlas_manager.Access.Principal.{Principal, create_principal}
use atlas_manager.Access.Tables.{administrator-has}
use atlas_manager.Access.Authorize.{
  Decision, Outcome, allowed, denied, Assignment, rejected, unknown_principal, unavailable,
  assigned, permission_denied, outcome_of, some_role_has, decide, authorize,
}

pub data Among : Role → List Role → Type 0 where
  here : (r : Role) (rs : List Role) → Among r (r ∷ rs)
  there : (r q : Role) (rs : List Role) → Among r rs → Among r (q ∷ rs)

-- A role that is assigned grants the permission.
abbrev pub Grants : Assignment → Permission → Type 0
Grants a p =
    (roles : List Role) × (r : Role) × (a ≡ assigned roles)
    × Among r roles
    × (role_has_permission r p ≡ true)

some_role-Among :
    (p : Permission) (roles : List Role)
    → some_role_has roles p ≡ true
    → (r : Role) × Among r roles × (role_has_permission r p ≡ true)
some_role-Among p [] h = cc
some_role-Among p (q ∷ rs) h = elim (Bool-cases (role_has_permission q p)) [
  | inl e ↦ (q, here q rs, e)
  | inr e ↦ let (r, m, k) = some_role-Among p rs (rw e at h) in (r, there r q rs m, k)
]

Among-some_role :
    (p : Permission) (r : Role) (roles : List Role)
    → Among r roles
    → role_has_permission r p ≡ true
    → some_role_has roles p ≡ true
Among-some_role p _ _ (here r rs) h = rw h
Among-some_role p _ _ (there r q rs m) h = ground (arith, Among-some_role p r rs m h)

outcome-allowed : (p : Permission) (a : Assignment) → (outcome_of p a ≡ allowed) ↔ Grants a p
outcome-allowed p rejected = (λ h. cc, λ g. cc g.2)
outcome-allowed p unknown_principal = (λ h. cc, λ g. cc g.2)
outcome-allowed p unavailable = (λ h. cc, λ g. cc g.2)
outcome-allowed p (assigned roles) = (to, from)
  where
    to : outcome_of p (assigned roles) ≡ allowed → Grants (assigned roles) p
    to h = elim (Bool-cases (some_role_has roles p)) [
      | inl e ↦ let (r, m, k) = some_role-Among p roles e in (roles, r, refl, m, k)
      | inr e ↦ absurd (refused (rw (e, outcome_of) at h))
    ]
      where
        refused : denied permission_denied ≢ allowed
        refused e = cc

    from : Grants (assigned roles) p → outcome_of p (assigned roles) ≡ allowed
    from (roles', r, e, m, k) =
        let same : roles ≡ roles' = cc in rw same (rw (Among-some_role p r roles' m k, outcome_of))

authorize-decide :
    (d : Dates) (read : Principal → Assignment) (principal operation : Value) (t : Str)
    (x : Decision)
    → authorize d read principal operation t ≡ ok x
    → (create_principal principal ≡ ok x.principal)
      × (create_operation operation ≡ ok x.operation)
      × (is_canonical_timestamp d (Value.string t) ≡ true)
      × (decide read x.principal x.operation t ≡ x)
unfolding authorize
authorize-decide d read principal operation t x h =
    from (create_principal principal) (create_operation operation)
      (is_canonical_timestamp d (Value.string t)) h
  where
    from :
        (p : Result AccessError Principal) (o : Result AccessError Operation) (b : Bool)
        → ◌≡◌ {A = Result AccessError Decision}
            (p >>= λ principal. o >>= λ operation.
              throw_if (not b) invalid_evaluation_timestamp
              >> ok (decide read principal operation t))
            (ok x)
        → (p ≡ ok x.principal)
          × (o ≡ ok x.operation)
          × (b ≡ true)
          × (decide read x.principal x.operation t ≡ x)
    from (ok p) (ok o) true h =
        let same : decide read p o t ≡ x = cc in rw (← same) (refl, refl, refl, refl)
    from (ok p) (ok o) false h = cc
    from (ok p) (err e) b h = cc
    from (err e) o b h = cc

-- A decision that is returned is for the principal and the operation that were given, and allows the operation
-- exactly if the reader names roles for the principal, one of which has the permission of the operation. An unknown
-- principal and a reader that fails allow nothing.
pub authorize-allowed :
    (d : Dates) (read : Principal → Assignment) (principal operation : Value) (t : Str)
    (x : Decision)
    → authorize d read principal operation t ≡ ok x
    → (create_principal principal ≡ ok x.principal)
      × (create_operation operation ≡ ok x.operation)
      × ((x.outcome ≡ allowed) ↔ Grants (read x.principal) (permission_for_operation x.operation))
authorize-allowed d read principal operation t x h =
    let (e, e', e'', same) = authorize-decide d read principal operation t x h in
    (
      e,
      e',
      rw (ap (λ (y : Decision). y.outcome) (sym same))
          (outcome-allowed (permission_for_operation x.operation) (read x.principal)),
    )

-- Where the principal and the operation are valid and the time is a time stamp, and the reader names the role of
-- administrator among the roles of this principal, a decision is returned for this principal and this operation: it
-- allows the operation, whichever it is.
pub authorize-administrator :
    (d : Dates) (read : Principal → Assignment) (principal operation : Value) (t : Str)
    (p : Principal) (o : Operation) (roles : List Role)
    → create_principal principal ≡ ok p
    → create_operation operation ≡ ok o
    → is_canonical_timestamp d (Value.string t) ≡ true
    → read p ≡ assigned roles
    → Among administrator roles
    → authorize d read principal operation t
      ≡ ok (record {
        principal = p;
        operation = o;
        permission = permission_for_operation o;
        evaluated_at = t;
        outcome = allowed;
      })
unfolding authorize
authorize-administrator d read principal operation t p o roles made known timed e m =
    let permission = permission_for_operation o in
    let grants : Grants (read p) permission =
      (roles, administrator, e, m, administrator-has permission) in
    rw (made, known, timed)
      (ap (λ x. ok (with_outcome x)) ((outcome-allowed permission (read p)).1 grants))
  where
    with_outcome : Outcome → Decision
    with_outcome x = record {
      principal = p;
      operation = o;
      permission = permission_for_operation o;
      evaluated_at = t;
      outcome = x;
    }

stops_machine :
    (r : Role)
    → role_has_permission r (permission_for_operation request_machine_shutdown) ≡ true
    → (r ≡ power_operator) ⊎ (r ≡ administrator)
unfolding role_has_permission str_eq
stops_machine power_operator h = inl refl
stops_machine administrator h = inr refl
stops_machine scheduler_operator h = cc
stops_machine auditor h = cc
stops_machine service_operator h = cc
stops_machine backup_operator h = cc
stops_machine audit_operator h = cc

-- A decision that is returned and allows the request of a shutdown is for a principal with the role of power
-- operator or of administrator.
pub authorize-shutdown :
    (d : Dates) (read : Principal → Assignment) (principal operation : Value) (t : Str)
    (x : Decision)
    → authorize d read principal operation t ≡ ok x
    → x.operation ≡ request_machine_shutdown
    → x.outcome ≡ allowed
    → (roles : List Role) × (read x.principal ≡ assigned roles)
      × (Among power_operator roles ⊎ Among administrator roles)
authorize-shutdown d read principal operation t x h e a =
    let (roles, r, known, m, grants) = (authorize-allowed d read principal operation t x h).2.0 a in
    (
      roles,
      known,
      elim (stops_machine r (rw e at grants)) [
        | inl same ↦ inl (rw same at m)
        | inr same ↦ inr (rw same at m)
      ],
    )
