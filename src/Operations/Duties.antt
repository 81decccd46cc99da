-- ===== src/Operations/Duties.antt =====
-- What `approveDecision` demands of the approvers.
use text.Mathlib.Text.{◌==◌ as str_eq}
use text.Mathlib.TextEquality.{eq_iff}
use malacca_port_resilience.Prelude.{
  ℕ, suc, ◌≡◌, ◌≢◌, refl, sym, ◌∙◌, Bool, true, false, String, some, List, [], ◌∷◌, map, get_elem?,
  any, Bool-cases, inl, inr, arith, contains, two_of_unique,
}
use malacca_port_resilience.Operations.{
  Role, operator, safety_officer, Approver, is_operator, is_safety_officer, is_dual,
}

-- A member of the list.
pub record In (approvers : List Approver) (a : Approver) : Type 0 where
  pub index : ℕ
  pub there : get_elem? approvers index ≡ some a

later : (x a : Approver) (xs : List Approver) → In xs a → In (x ∷ xs) a
later x a xs i = record { index = suc i.index; there = i.there }

witness :
    (t : Approver → Bool) (xs : List Approver)
    → any t xs ≡ true
    → (a : Approver) × In xs a × (t a ≡ true)
witness t [] h = cc
witness t (x ∷ xs) h = elim (Bool-cases (t x)) [
  | inl e ↦ (x, record { index = 0; there = refl }, e)
  | inr e ↦
      let (a, there, holds) = witness t xs (ground (arith, e, h)) in (a, later x a xs there, holds)
]

named :
    (id : String) (xs : List Approver)
    → contains id (map (λ a. a.approver_id) xs) ≡ true
    → (a : Approver) × In xs a × (a.approver_id ≡ id)
named id [] h = cc
named id (x ∷ xs) h = elim (Bool-cases (str_eq x.approver_id id)) [
  | inl e ↦ (x, record { index = 0; there = refl }, (eq_iff x.approver_id id).0 e)
  | inr e ↦
      let (a, there, same) = named id xs (ground (arith, e, h)) in (a, later x a xs there, same)
]

-- An operator and a safety officer among the approvers who are not the same person.
pub record SeparateRoles (approvers : List Approver) : Type 0 where
  pub first : Approver
  pub second : Approver
  pub first_in : In approvers first
  pub second_in : In approvers second
  pub first_operates : is_operator first ≡ true
  pub second_secures : is_safety_officer second ≡ true
  pub different : first.approver_id ≢ second.approver_id

by_role :
    (r : Role)
    → elim r as (λ _. Bool) [ operator ↦ true | safety_officer ↦ false ] ≡ false
    → elim r as (λ _. Bool) [ operator ↦ false | safety_officer ↦ true ] ≡ true
by_role operator h = cc
by_role safety_officer h = refl

other_role : (a : Approver) → is_operator a ≡ false → is_safety_officer a ≡ true
other_role a h = by_role a.role h

apart_from : {x y a b o : String} → x ≢ y → a ≡ x → b ≡ y → a ≡ o → b ≢ o
apart_from differ a_is b_is a_is_o e = differ (sym a_is ∙ (a_is_o ∙ (sym e ∙ b_is)))

apart_too : {b o s : String} → b ≢ o → o ≡ s → b ≢ s
apart_too not_o same e = not_o (e ∙ sym same)

-- With one approver in each role, a third person can stand in for either.
with_third :
    (approvers : List Approver) (o s z : Approver)
    → In approvers o
    → In approvers s
    → In approvers z
    → is_operator o ≡ true
    → is_safety_officer s ≡ true
    → z.approver_id ≢ o.approver_id
    → z.approver_id ≢ s.approver_id
    → SeparateRoles approvers
with_third approvers o s z o_in s_in z_in operates secures not_o not_s =
    elim (Bool-cases (is_operator z)) [
      | inl e ↦ record {
        first = z;
        second = s;
        first_in = z_in;
        second_in = s_in;
        first_operates = e;
        second_secures = secures;
        different = not_s;
      }
      | inr e ↦ record {
        first = o;
        second = z;
        first_in = o_in;
        second_in = z_in;
        first_operates = operates;
        second_secures = other_role z e;
        different = λ h. not_o (sym h);
      }
    ]

-- Although the check counts people and roles apart, approvers that pass it always include an operator
-- and a safety officer who are two different people.
pub is_dual-SeparateRoles :
    (approvers : List Approver) → is_dual approvers ≡ true → SeparateRoles approvers
unfolding is_dual
is_dual-SeparateRoles approvers h =
    let ids = map (λ a. a.approver_id) approvers in
    let (x, y, differ, x_there, y_there) = two_of_unique ids (ground (arith, h)) in
    let (a, a_in, a_is) = named x approvers x_there in
    let (b, b_in, b_is) = named y approvers y_there in
    let (o, o_in, operates) = witness is_operator approvers (ground (arith, h)) in
    let (s, s_in, secures) = witness is_safety_officer approvers (ground (arith, h)) in
    elim (Bool-cases (str_eq o.approver_id s.approver_id)) [
      | inr apart ↦ record {
        first = o;
        second = s;
        first_in = o_in;
        second_in = s_in;
        first_operates = operates;
        second_secures = secures;
        different = λ e. ground (arith, apart, (eq_iff o.approver_id s.approver_id).1 e);
      }
      | inl together ↦
          let same : o.approver_id ≡ s.approver_id =
            (eq_iff o.approver_id s.approver_id).0 together in
          elim (Bool-cases (str_eq a.approver_id o.approver_id)) [
            | inr other ↦
                let not_o : a.approver_id ≢ o.approver_id =
                  λ e. ground (arith, other, (eq_iff a.approver_id o.approver_id).1 e) in
                with_third approvers o s a o_in s_in a_in operates secures not_o
                  (apart_too not_o same)
            | inl one ↦
                let a_is_o : a.approver_id ≡ o.approver_id =
                  (eq_iff a.approver_id o.approver_id).0 one in
                let not_o : b.approver_id ≢ o.approver_id = apart_from differ a_is b_is a_is_o in
                with_third approvers o s b o_in s_in b_in operates secures not_o
                  (apart_too not_o same)
          ]
    ]
