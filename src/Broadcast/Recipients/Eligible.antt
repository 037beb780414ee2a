-- ===== src/Broadcast/Recipients/Eligible.antt =====
-- Which numbers a broadcast goes to.
use mathlib.Core.List.{Memᴰ}
use fmxevolution_go.Base.{
  All-filtered, filter, String, Bool, true, false, not, ◌&&◌, ◌||◌, ◌≡◌, refl, ap, none, some, List,
  [], ◌∷◌, str_eq, str_eq-sym, eq_iff, eq_refl, if◌then◌else◌, Bool-cases, inl, inr, trim_space,
  is_blank, any, All, All-imp, arith,
}
use fmxevolution_go.Broadcast.Env.{Contact}
use fmxevolution_go.Broadcast.Recipients.{
  BroadcastRecipient, eligible_from, eligible_broadcast_recipients,
}

-- A contact with a number, linked to no instance or to this one.
abbrev pub is_eligible : String → Contact → Bool
is_eligible inst c =
    not (str_eq (trim_space c.phone) "")
    && (str_eq (trim_space c.instance_id) "" || str_eq (trim_space c.instance_id) inst)

abbrev pub has_phone : String → List BroadcastRecipient → Bool
has_phone phone = any (λ r. str_eq r.phone phone)

-- No number twice.
abbrev pub Distinct : List BroadcastRecipient → Type 0
Distinct [] = Unit
Distinct (r ∷ rs) = (has_phone r.phone rs ≡ false) × Distinct rs

abbrev seen_phone : String → List String → Bool
seen_phone phone = any (λ s. str_eq s phone)

skips : String → List String → Contact → Bool
skips inst seen c =
    str_eq (trim_space c.phone) ""
    || (not (str_eq (trim_space c.instance_id) "") && not (str_eq (trim_space c.instance_id) inst))
    || seen_phone (trim_space c.phone) seen

abbrev pub recipient : Contact → BroadcastRecipient
recipient c = record {
  contact_id = if is_blank c.id then none else some (trim_space c.id);
  phone = trim_space c.phone;
}

module _ (inst : String) (seen : List String) (c : Contact) (cs : List Contact) where
  eligible_skipped :
      skips inst seen c ≡ true → eligible_from inst seen (c ∷ cs) ≡ eligible_from inst seen cs
  unfolding eligible_from skips
  eligible_skipped h = rw h

  eligible_taken :
      skips inst seen c ≡ false
      → eligible_from inst seen (c ∷ cs)
        ≡ recipient c ∷ eligible_from inst (trim_space c.phone ∷ seen) cs
  unfolding eligible_from skips
  eligible_taken h = rw h

  skips-unseen : skips inst seen c ≡ false → seen_phone (trim_space c.phone) seen ≡ false
  unfolding skips
  skips-unseen h = ground arith

  skips-is_eligible : skips inst seen c ≡ false → is_eligible inst c ≡ true
  unfolding skips
  skips-is_eligible h = ground arith

  skips-seen :
      skips inst seen c ≡ true
      → is_eligible inst c ≡ true
      → seen_phone (trim_space c.phone) seen ≡ true
  unfolding skips
  skips-seen h e = ground arith

seen_phone-differs :
    (a b : String) (seen : List String)
    → seen_phone a seen ≡ false
    → seen_phone b seen ≡ true
    → str_eq a b ≡ false
seen_phone-differs a b seen f t = elim (Bool-cases (str_eq a b)) [
  | inl same ↦ cc (ap (λ x. seen_phone x seen) ((eq_iff a b).0 same))
  | inr other ↦ other
]

-- The loop takes no number that it has seen.
unseen :
    (inst : String) (seen : List String) (cs : List Contact) (phone : String)
    → seen_phone phone seen ≡ true
    → has_phone phone (eligible_from inst seen cs) ≡ false
unseen inst seen [] phone h = unfold eligible_from in refl
unseen inst seen (c ∷ cs) phone h = elim (Bool-cases (skips inst seen c)) [
  | inl skip ↦ rw (eligible_skipped inst seen c cs skip) (unseen inst seen cs phone h)
  | inr take ↦ rw (eligible_taken inst seen c cs take) (
      ground (
        arith,
        seen_phone-differs (trim_space c.phone) phone seen (skips-unseen inst seen c cs take) h,
        unseen inst (trim_space c.phone ∷ seen) cs phone,
      ))
]

eligible_from-Distinct :
    (inst : String) (seen : List String) (cs : List Contact) → Distinct (eligible_from inst seen cs)
eligible_from-Distinct inst seen [] = unfold eligible_from in tt
eligible_from-Distinct inst seen (c ∷ cs) = elim (Bool-cases (skips inst seen c)) [
  | inl skip ↦ rw (eligible_skipped inst seen c cs skip) (eligible_from-Distinct inst seen cs)
  | inr take ↦ rw (eligible_taken inst seen c cs take) (
      (
        unseen inst (trim_space c.phone ∷ seen) cs (trim_space c.phone)
            (ground (arith, eq_refl (trim_space c.phone))),
        eligible_from-Distinct inst (trim_space c.phone ∷ seen) cs,
      ))
]

-- A recipient of a contact of the list that is eligible.
abbrev pub Comes : String → List Contact → BroadcastRecipient → Type 0
Comes inst cs r = (c : Contact) × Memᴰ c cs × (is_eligible inst c ≡ true) × (r ≡ recipient c)

later :
    (inst : String) (c : Contact) (cs : List Contact) (r : BroadcastRecipient)
    → Comes inst cs r
    → Comes inst (c ∷ cs) r
later inst c cs r (d, m, e, q) = (d, Memᴰ.tail m, e, q)

eligible_from_sound :
    (inst : String) (seen : List String) (cs : List Contact)
    → All (Comes inst cs) (eligible_from inst seen cs)
eligible_from_sound inst seen [] = unfold eligible_from in tt
eligible_from_sound inst seen (c ∷ cs) = elim (Bool-cases (skips inst seen c)) [
  | inl skip ↦
      rw (eligible_skipped inst seen c cs skip)
        (All-imp _ _ (later inst c cs) _ (eligible_from_sound inst seen cs))
  | inr take ↦ rw (eligible_taken inst seen c cs take) (
    (c, Memᴰ.head refl, skips-is_eligible inst seen c cs take, refl),
    All-imp _ _ (later inst c cs) _ (eligible_from_sound inst (trim_space c.phone ∷ seen) cs),
  )
]

abbrev Taken : String → List String → List BroadcastRecipient → Contact → Type 0
Taken inst seen rs c =
    is_eligible inst c ≡ true
    → (seen_phone (trim_space c.phone) seen || has_phone (trim_space c.phone) rs) ≡ true

eligible_from_complete :
    (inst : String) (seen : List String) (cs : List Contact)
    → All (Taken inst seen (eligible_from inst seen cs)) cs
eligible_from_complete inst seen [] = tt
eligible_from_complete inst seen (c ∷ cs) = elim (Bool-cases (skips inst seen c)) [
  | inl skip ↦ (
    λ e.
        rw (eligible_skipped inst seen c cs skip)
          (ground (arith, skips-seen inst seen c cs skip e)),
    All-imp _ _ (λ d f e. rw (eligible_skipped inst seen c cs skip) (f e)) _
        (eligible_from_complete inst seen cs),
  )
  | inr take ↦ (
    λ e. rw (eligible_taken inst seen c cs take) (ground (arith, eq_refl (trim_space c.phone))),
    All-imp _ _
        (λ d f e.
          rw (eligible_taken inst seen c cs take)
            (ground (arith, f e, str_eq-sym (trim_space c.phone) (trim_space d.phone))))
        _ (eligible_from_complete inst (trim_space c.phone ∷ seen) cs),
  )
]

-- The recipients of a broadcast have distinct numbers; each comes from a contact of the list that
-- has a number and is linked to no instance or to the broadcast's, with the contact's number and
-- identifier without white space around them; and every such contact's number is among them.
pub eligible_broadcast_recipients_lem :
    (contacts : List Contact) (inst : String)
    → let rs = eligible_broadcast_recipients contacts inst in
      Distinct rs
      × All (Comes inst contacts) rs
      × All (λ c. has_phone (trim_space c.phone) rs ≡ true) (filter (is_eligible inst) contacts)
unfolding eligible_broadcast_recipients
eligible_broadcast_recipients_lem contacts inst = (
  eligible_from-Distinct inst [] contacts,
  eligible_from_sound inst [] contacts,
  All-filtered _ (is_eligible inst) contacts (eligible_from_complete inst [] contacts),
)
