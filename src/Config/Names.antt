-- ===== src/Config/Names.antt =====
-- src/config.js: the sub types of outbox events, which name a service and maybe one of its actions.
-- A raw sub type is given by its parts, `rawSubType.split(".")`.
use Prim.Native.String
use event_queue.Prelude.{
  ◌≡◌, refl, String, Bool, true, false, ◌||◌, Option, none, some, List, [], ◌∷◌, if◌then◌else◌,
  str_eq, Bool-cases, inl, inr, ◌⊎◌,
}

abbrev pub dotted : String → String → String
dotted s t = String.◌++◌ s (String.◌++◌ "." t)

-- `array.join(".")`, and the join of a name with more parts.
unfoldable pub join_dots : String → List String → String
join_dots s [] = s
join_dots s (t ∷ ts) = join_dots (dotted s t) ts

pub record Normalized : Type 0 where
  pub sub_type : String
  pub action_name : Option String
  pub srv_name : Option String

-- The loop: parts move to the name of the service until `cds.env.requires` knows it.
unfoldable pub find_service :
    (is_known : String → Bool) → String → List String → String × List String
find_service is_known srv [] = (srv, [])
find_service is_known srv (p ∷ ps) = elim (is_known srv) [
  | true ↦ (srv, p ∷ ps)
  | false ↦ find_service is_known (dotted srv p) ps
]

abbrev pub first_of : List String → Option String
first_of [] = none
first_of (p ∷ ps) = some p

abbrev pub is_cap_event_type : String → Bool
is_cap_event_type type = str_eq type "CAP_OUTBOX" || str_eq type "CAP_OUTBOX_PERIODIC"

-- `normalizeSubType`; `is_specific` tells whether `getCdsOutboxEventSpecificConfig` finds an action.
unfoldable pub normalize_sub_type :
    (is_known : String → Bool)
    → (is_specific : String → Option String → Bool) → (type : String) → (first : String)
    → (parts : List String) → Normalized
unfolding find_service
normalize_sub_type is_known is_specific type first parts =
    let raw = join_dots first parts in
    let (srv, rest) = find_service is_known first parts in
    if is_cap_event_type type
    then record {
      sub_type = if is_specific srv (first_of rest) then raw else srv;
      action_name = first_of rest;
      srv_name = some srv;
    }
    else record { sub_type = raw; action_name = none; srv_name = none }

-- How the loop went from one name to another: the names between were not known.
pub data Grows (is_known : String → Bool)
    : String → List String → String → List String → Type 0 where
  stays : {srv : String} {ps : List String} → Grows is_known srv ps srv ps
  takes :
      {srv p srv' : String} {ps ps' : List String}
      → is_known srv ≡ false
      → Grows is_known (dotted srv p) ps srv' ps'
      → Grows is_known srv (p ∷ ps) srv' ps'

find_service-Grows :
    (is_known : String → Bool) (srv : String) (ps : List String)
    → Grows is_known srv ps (find_service is_known srv ps).0 (find_service is_known srv ps).1
unfolding find_service
find_service-Grows is_known srv [] = stays
find_service-Grows is_known srv (p ∷ ps) = elim (Bool-cases (is_known srv)) [
  | inl known ↦ rw (known, find_service) stays
  | inr unknown ↦
      rw (unknown, find_service) (takes unknown (find_service-Grows is_known (dotted srv p) ps))
]

find_service-stops :
    (is_known : String → Bool) (srv : String) (ps : List String)
    → (is_known (find_service is_known srv ps).0 ≡ true) ⊎ ((find_service is_known srv ps).1 ≡ [])
unfolding find_service
find_service-stops is_known srv [] = inr refl
find_service-stops is_known srv (p ∷ ps) = elim (Bool-cases (is_known srv)) [
  | inl known ↦ rw (known, find_service) (inl known)
  | inr unknown ↦ rw (unknown, find_service) (find_service-stops is_known (dotted srv p) ps)
]

join_dots-find_service :
    (is_known : String → Bool) (srv : String) (ps : List String)
    → join_dots (find_service is_known srv ps).0 (find_service is_known srv ps).1 ≡ join_dots srv ps
unfolding find_service join_dots
join_dots-find_service is_known srv [] = refl
join_dots-find_service is_known srv (p ∷ ps) = elim (Bool-cases (is_known srv)) [
  | inl known ↦ rw (known, find_service) refl
  | inr unknown ↦ rw (unknown, find_service) (join_dots-find_service is_known (dotted srv p) ps)
]

-- The raw sub type of an outbox event is the name of the service, joined with what is left of it:
-- the name is the shortest one, by whole parts, that is known, or all of it if none is; the action is
-- the next part. The sub type that is returned is the raw one when the action has a configuration of
-- its own, and the name of the service otherwise.
pub normalize_sub_type-Grows :
    (is_known : String → Bool) (is_specific : String → Option String → Bool) (type first : String)
    (parts : List String)
    → is_cap_event_type type ≡ true
    → (srv : String) × (rest : List String) × ((normalize_sub_type is_known is_specific type first
          parts).srv_name
        ≡ some srv)
      × ((normalize_sub_type is_known is_specific type first parts).action_name ≡ first_of rest)
      × ((is_specific srv (first_of rest) ≡ true
            → (normalize_sub_type is_known is_specific type first parts).sub_type
              ≡ join_dots first parts)
          × (is_specific srv (first_of rest) ≡ false
              → (normalize_sub_type is_known is_specific type first parts).sub_type ≡ srv))
      × (join_dots srv rest ≡ join_dots first parts)
      × Grows is_known first parts srv rest
      × ((is_known srv ≡ true) ⊎ (rest ≡ []))
unfolding normalize_sub_type
normalize_sub_type-Grows is_known is_specific type first parts cap = (
  (find_service is_known first parts).0,
  (find_service is_known first parts).1,
  rw cap refl,
  rw cap refl,
  (λ specific. rw cap (rw specific refl), λ general. rw cap (rw general refl)),
  join_dots-find_service is_known first parts,
  find_service-Grows is_known first parts,
  find_service-stops is_known first parts,
)
