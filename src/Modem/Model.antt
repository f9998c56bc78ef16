-- ===== src/Modem/Model.antt =====
-- Modem and ModemGroup (faxd/Modem.h, faxd/Modem.c++). The master list is the list of the modems on it, in
-- its order; a modem is named by its address `self`. A device identifier is the list of its characters.
-- A group is the test that its regular expression makes of a device identifier; the groups and whether
-- the lock file of a modem can be taken are parameters.
use hyla_fax.Base.{
  ℕ, ◌+◌, ◌-◌, ◌%◌, ◌^◌, Bool, true, false, not, ◌&&◌, leb, ◌==◌, if◌then◌else◌, List, [], ◌∷◌,
  ◌++◌, Option, none, some,
}
use hyla_fax.Base.Ordered.{insert_while, remove_first}
use hyla_fax.Class2.Caps.{new_params, decode_caps}
pub use hyla_fax.Modem.Capable.{
  ModemState, down, ready, busy, is_ready, Modem, Modems, Job, same_text, is_capable,
}

-- modemExists.
abbrev pub modem_exists : List Modem → (id : List ℕ) → Option Modem
modem_exists [] id = none
modem_exists (m ∷ ms) id = if same_text m.dev_id id then some m else modem_exists ms id

-- The constructor, which places the modem at the end of the list, and getModemByID.
abbrev pub new_modem : (self : ℕ) → (id : List ℕ) → Modem
new_modem self id = record {
  self = self;
  dev_id = id;
  state = down;
  canpoll = true;
  priority = 255;
  caps = new_params;
}

unfoldable pub get_modem_by_id : Modems → (fresh : ℕ) → (id : List ℕ) → Modems × Modem
get_modem_by_id ms fresh id =
    let made = new_modem fresh id in
    elim (modem_exists ms.list id) [
      | none ↦ (record ms { list = ms.list ++ made ∷ [] }, made)
      | some m ↦ (ms, m)
    ]

-- `remove()` of a modem, and its `insert` before the first one of a lower priority than `pri`.
abbrev pub unlinked : List Modem → Modem → List Modem
unlinked ms m = remove_first (λ other. other.self == m.self) ms

abbrev pub placed : (pri : ℕ) → Modem → List Modem → List Modem
placed pri m ms = insert_while (λ other. leb other.priority pri) m ms

-- The modem at an address takes a new value.
unfoldable pub update : List Modem → Modem → List Modem
update [] m = []
update (other ∷ ms) m = if other.self == m.self then m ∷ ms else other ∷ update ms m

-- The count of the ready modems in setState.
abbrev pub recount : ℕ → (old new : ModemState) → ℕ
recount n old new =
    if is_ready new && not (is_ready old)
    then n + 1
    else if is_ready old && not (is_ready new)
    then n - 1
    else n

unfoldable pub set_state : Modems → Modem → ModemState → Modems
set_state ms m s = record {
  list = update ms.list (record m { state = s });
  modems_ready = recount ms.modems_ready m.state s;
}

-- assign, for a lock file that could be taken or not.
unfoldable pub assign : Modems → Modem → (locked : Bool) → Modems × Bool
assign ms m locked = (set_state ms m busy, locked)

unfoldable pub release : Modems → Modem → Modems
release ms m = set_state ms m ready

-- setCapabilities, after its scan: whether the first character is P, the word, and the priority if there
-- is a colon. The priority is an unsigned short.
unfoldable pub set_capabilities : Modems → Modem → (polls : Bool) → (word : ℕ) → Option ℕ → Modems
set_capabilities ms m polls word pri =
    let told = record m { canpoll = polls; caps = decode_caps word } in
    elim pri [
      | none ↦ set_state (record ms { list = update ms.list told }) told ready
      | some p ↦
          let moved = record told { priority = p % 2 ^ 16 } in
          if p == m.priority
          then set_state (record ms { list = update ms.list told }) told ready
          else set_state (record ms { list = placed p moved (unlinked ms.list m) }) moved ready
    ]

-- A registered group.
abbrev pub Group : Type 0
Group = List ℕ → Bool

abbrev pub is_text : List ℕ → Bool
is_text [] = false
is_text (c ∷ cs) = true

-- isInGroup.
abbrev pub is_in_group : (groups : List ℕ → Option Group) → Modem → (mgroup : List ℕ) → Bool
is_in_group groups m mgroup = elim (groups mgroup) [
  | none ↦ same_text m.dev_id mgroup
  | some c ↦ c m.dev_id
]

-- Whether the destination's rules admit the modem: its class, or the explicit modem.
unfoldable pub is_suitable : (cdci : Option Group) → Job → Modem → Bool
is_suitable (some cdci) job m = cdci m.dev_id
is_suitable none job m = if is_text job.jci_modem then same_text job.jci_modem m.dev_id else true

-- The first pass over the list, which heeds the rules of the destination: whether a modem meets them, and
-- the first ready one that does. The rest of a list after a choice is not looked at.
unfoldable pub strict_pass : Group → (cdci : Option Group) → Job → List Modem → Bool × Option Modem
strict_pass c cdci job [] = (false, none)
strict_pass c cdci job (m ∷ ms) =
    let rest = strict_pass c cdci job ms in
    if c m.dev_id && is_capable m job
    then if is_suitable cdci job m
      then if is_ready m.state then (true, some m) else (true, rest.1)
      else rest
    else rest

-- The second pass, which heeds those of the job only.
unfoldable pub loose_pass : Group → Job → List Modem → Option Modem
loose_pass c job [] = none
loose_pass c job (m ∷ ms) =
    let rest = loose_pass c job ms in
    if c m.dev_id && is_capable m job then if is_ready m.state then some m else rest else rest

-- The search for an explicit modem.
unfoldable pub explicit_pass : Job → List Modem → Option Modem
explicit_pass job [] = none
explicit_pass job (m ∷ ms) =
    let rest = explicit_pass job ms in
    if is_ready m.state
    then if same_text job.device m.dev_id then if is_capable m job then some m else none else rest
    else rest

-- The modem that the passes over a class choose.
unfoldable pub chosen : Group → (cdci : Option Group) → Job → List Modem → Option Modem
chosen c cdci job ms =
    let strict = strict_pass c cdci job ms in
    let loose = loose_pass c job ms in
    elim strict.1 [ some m ↦ some m | none ↦ if strict.0 then none else loose ]

-- The modem moves to the end of its priority group.
abbrev pub rotated : List Modem → Modem → List Modem
rotated ms m = placed m.priority m (unlinked ms m)

unfoldable pub find_modem : (groups : List ℕ → Option Group) → Modems → Job → Modems × Option Modem
find_modem groups ms job =
    let found = explicit_pass job ms.list in
    elim (groups job.device) [
      | none ↦ (ms, found)
      | some c ↦
          let cdci = if is_text job.jci_modem then groups job.jci_modem else none in
          elim (chosen c cdci job ms.list) [
            | none ↦ (ms, none)
            | some m ↦ (record ms { list = rotated ms.list m }, some m)
          ]
    ]
