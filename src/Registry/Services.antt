-- ===== src/Registry/Services.antt =====
-- `services_` of the registry server, a map from the id of a service to the path of its socket. The
-- order of the hash map is not specified, and is the order of the list here.
use mem.Prelude.{
  ℕ, ◌≡◌, ◌≢◌, refl, Option, none, some, List, [], ◌∷◌, if◌then◌else◌, ◌==◌, eq→==, ne→==,
  Bool-cases, inl, inr, ==→≡, sym, ap, ◌∙◌,
}

abbrev pub Services : Type 0
Services = List (ℕ × List ℕ)

-- `services_[sa_id] = path`
unfoldable pub assign : ℕ → List ℕ → Services → Services
assign sa_id path [] = (sa_id, path) ∷ []
assign sa_id path ((id, p) ∷ services) =
    let rest = assign sa_id path services in
    if sa_id == id then (sa_id, path) ∷ services else (id, p) ∷ rest

unfoldable pub find : ℕ → Services → Option (List ℕ)
find sa_id [] = none
find sa_id ((id, p) ∷ services) =
    let rest = find sa_id services in if sa_id == id then some p else rest

-- `erase` with a key: no entry with the key stays.
unfoldable pub erase : ℕ → Services → Services
erase sa_id [] = []
erase sa_id ((id, p) ∷ services) =
    let rest = erase sa_id services in if sa_id == id then rest else (id, p) ∷ rest

pub find-assign_self :
    (sa_id : ℕ) (path : List ℕ) (services : Services)
    → find sa_id (assign sa_id path services) ≡ some path
unfolding find assign
find-assign_self sa_id path [] = rw (eq→== {a = sa_id} refl) refl
find-assign_self sa_id path ((id, p) ∷ services) = elim (Bool-cases (sa_id == id)) [
  | inl same ↦ rw (same, eq→== {a = sa_id} refl) refl
  | inr other ↦ rw (other, other) (find-assign_self sa_id path services)
]

pub find-assign_ne :
    (sa_id other : ℕ) (path : List ℕ) (services : Services)
    → other ≢ sa_id
    → find other (assign sa_id path services) ≡ find other services
unfolding find assign
find-assign_ne sa_id other path [] ne = rw (ne→== ne) refl
find-assign_ne sa_id other path ((id, p) ∷ services) ne = elim (Bool-cases (sa_id == id)) [
  | inl same ↦ rw (same, ne→== ne, ne→== (λ e. ne (e ∙ sym (==→≡ sa_id id same)))) refl
  | inr apart ↦ rw apart (
      ap (λ (o : Option (List ℕ)). if other == id then some p else o)
        (find-assign_ne sa_id other path services ne))
]

pub find-erase_self : (sa_id : ℕ) (services : Services) → find sa_id (erase sa_id services) ≡ none
unfolding find erase
find-erase_self sa_id [] = refl
find-erase_self sa_id ((id, p) ∷ services) = elim (Bool-cases (sa_id == id)) [
  | inl same ↦ rw same (find-erase_self sa_id services)
  | inr apart ↦ rw (apart, apart) (find-erase_self sa_id services)
]

pub find-erase_ne :
    (sa_id other : ℕ) (services : Services)
    → other ≢ sa_id
    → find other (erase sa_id services) ≡ find other services
unfolding find erase
find-erase_ne sa_id other [] ne = refl
find-erase_ne sa_id other ((id, p) ∷ services) ne = elim (Bool-cases (sa_id == id)) [
  | inl same ↦
      rw (same, ne→== (λ e. ne (e ∙ sym (==→≡ sa_id id same))))
        (find-erase_ne sa_id other services ne)
  | inr apart ↦ rw apart (
      ap (λ (o : Option (List ℕ)). if other == id then some p else o)
        (find-erase_ne sa_id other services ne))
]
