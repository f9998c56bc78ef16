-- ===== src/Modem/Tests.antt =====
-- Runs of the model of faxd/Modem.c++ on three modems.
use hyla_fax.Base.{
  ℕ, Bool, true, false, ◌&&◌, ◌==◌, if◌then◌else◌, List, [], ◌∷◌, Option, none, some, ◌≡◌, refl,
  arith,
}
use hyla_fax.Base.Ordered.{insert_while, remove_first, count}
use hyla_fax.Class2.Caps.{decode_caps}
use hyla_fax.Modem.Capable.{
  is_capable, supports_page_width_in_mm, supports_page_length_in_mm, supports_v_res,
}
use hyla_fax.Modem.Model.{
  Modem, Modems, Job, Group, same_text, ready, busy, is_ready, find_modem, chosen, strict_pass,
  loose_pass, is_suitable, get_modem_by_id, new_modem, set_capabilities, set_state, update, assign,
}
use hyla_fax.Modem.Order.{IsModems}
use hyla_fax.Modem.Find.{admitted, IsBest}
use hyla_fax.Modem.Assign.{Assigned, assign_modem, assign_modem-Assigned}
use hyla_fax.Modem.Choice.{destination_class, find_modem-IsBest}
use hyla_fax.Modem.Steps.{Reach, here, next, makes, tells, assigns, no_modems, Reach-IsModems}

-- A modem of fine resolution and A4 pages of any length, named by one character.
abbrev a_modem : ℕ → ℕ → Bool → Modem
a_modem name priority is_up = record {
  self = name;
  dev_id = name ∷ [];
  state = if is_up then ready else busy;
  canpoll = false;
  priority = priority;
  caps = record { vr = 1; br = 7; wd = 1; ln = 4; df = 3; ec = 0; bf = 0; st = 3 };
}

abbrev three : Modems
three = record {
  list = a_modem 97 10 false ∷ a_modem 98 20 true ∷ a_modem 99 20 true ∷ [];
  modems_ready = 2;
}

three-IsModems : IsModems three
unfolding count
three-IsModems = record {
  sorted = ((omega arith, (omega arith, tt)), ((omega arith, tt), (tt, tt)));
  apart = ((refl, (refl, tt)), ((refl, tt), (tt, tt)));
  ranged = (omega arith, (omega arith, (omega arith, tt)));
  counted = refl;
}

-- The class "any" has every modem, and no other name is a class.
abbrev groups : List ℕ → Option Group
groups name = if same_text name (97 ∷ 110 ∷ 121 ∷ []) then some (λ dev. true) else none

abbrev job : Job
job = record {
  willpoll = false;
  pagewidth = 209;
  pagelength = 296;
  resolution = 196;
  device = 97 ∷ 110 ∷ 121 ∷ [];
  jci_modem = [];
}

find_modem_run : find_modem groups three job ≡ (
  record {
    list = a_modem 97 10 false ∷ a_modem 99 20 true ∷ a_modem 98 20 true ∷ [];
    modems_ready = 2;
  },
  some (a_modem 98 20 true),
)
unfolding find_modem chosen strict_pass loose_pass is_capable is_suitable supports_page_width_in_mm
    supports_page_length_in_mm supports_v_res insert_while remove_first
find_modem_run = refl

find_modem-IsBest_example :
    IsBest
      (λ m.
        admitted (λ dev. true) (destination_class groups job) job three.list m && is_ready m.state)
      three.list
      (find_modem groups three job).1
find_modem-IsBest_example = find_modem-IsBest groups three job (λ dev. true) three-IsModems refl

-- A modem is made, tells its capabilities and its priority, and is assigned.
abbrev made : Modems
made = (get_modem_by_id no_modems 7 (97 ∷ [])).0

abbrev told : Modems
told = set_capabilities made (new_modem 7 (97 ∷ [])) false 0xc0f84703 (some 10)

abbrev told_modem : Modem
told_modem = record (new_modem 7 (97 ∷ [])) {
  state = ready;
  canpoll = false;
  priority = 10;
  caps = decode_caps 0xc0f84703;
}

told-Reach : Reach groups no_modems (assign told told_modem true).0
unfolding get_modem_by_id set_capabilities set_state update insert_while remove_first
told-Reach =
    next
      (next (next here (makes 7 (97 ∷ []) tt refl))
        (tells (new_modem 7 (97 ∷ [])) false 0xc0f84703 (some 10) refl (omega arith) refl))
      (assigns told_modem true refl refl)

Reach-IsModems_example : IsModems (assign told told_modem true).0
Reach-IsModems_example = Reach-IsModems told-Reach

-- No lock file can be taken but that of the second modem.
abbrev locks : Modem → Bool
locks m = m.self == 98

assign_modem-Assigned_example : Assigned groups locks job (assign_modem groups locks 3 three job)
assign_modem-Assigned_example =
    assign_modem-Assigned groups locks 3 three job three-IsModems (omega arith)

-- A modem that is made ready without capabilities keeps those of the constructor, which are all of them.
untold_run : is_capable (record (new_modem 7 (97 ∷ [])) { state = ready }) job ≡ true
unfolding is_capable supports_page_width_in_mm supports_page_length_in_mm supports_v_res
untold_run = refl
