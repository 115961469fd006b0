-- ===== src/DockerApi.antt =====
-- internal/dockerapi: the containers of the stack, by one of two dialects. The transport (`do`: one
-- HTTP exchange and the JSON decoder) is a record of the five calls that the client makes of it;
-- the labels and networks of a container are association lists.
pub mod Dialects
pub mod Finding
pub mod Endpoint
pub mod Wire
pub mod Addressing
use mailcow_watchdog.Prelude.{
  ℕ, ◌+◌, Bool, true, false, not, ◌&&◌, ◌||◌, String, List, [], ◌∷◌, ◌++◌, map, Option, none, some,
  Result, ok, err, ◌>>=◌, leb, str_eq, select, any, if◌then◌else◌,
}
use mailcow_watchdog.Prelude.Text.{Text, codes, contains, has_prefix, to_lower, text_eq}
use mailcow_watchdog.Prelude.Format.{str, sprintf}
use mailcow_watchdog.Check.{join}
use Dialects.{Dialect, auto, mailcow, engine, is_engine}

abbrev pub Fields : Type 0
Fields = List (String × String)

-- A map's value at a key; the empty string for a missing key.
unfoldable pub field_of : String → Fields → String
field_of key [] = ""
field_of key ((k, v) ∷ fields) = if str_eq k key then v else field_of key fields

abbrev pub compose_service_label : String
compose_service_label = "com.docker.compose.service"

abbrev pub compose_project_label : String
compose_project_label = "com.docker.compose.project"

pub record Container : Type 0 where
  pub id : String
  pub service : String
  pub project : String
  pub networks : Fields
  pub started_at : String

-- What `time.Parse` makes of a start time.
pub record Stamp : Type 0 where
  pub year : ℕ
  pub at : ℕ

-- `Started`: the start time, none for Go's zero time, and the error.
unfoldable pub started : (String → Result String Stamp) → Container → Option ℕ × Option String
started parse c = if str_eq c.started_at "" then (none, none) else elim (parse c.started_at) [
  | err e ↦ (none, some e)
  | ok t ↦ if leb t.year 1 then (none, none) else (some t.at, none)
]

-- `networks.addresses`: an attachment without an address is left out.
unfoldable pub addresses : Fields → Fields
addresses = select (λ n. not (str_eq n.1 ""))

pub record InspectRecord : Type 0 where
  pub id : String
  pub labels : Fields
  pub networks : Fields
  pub started_at : String

-- `inspectRecord.normalise`.
unfoldable pub normalise_inspect : InspectRecord → Container
normalise_inspect r = record {
  id = r.id;
  service = field_of compose_service_label r.labels;
  project = field_of compose_project_label r.labels;
  networks = addresses r.networks;
  started_at = r.started_at;
}

pub record SummaryRecord : Type 0 where
  pub id : String
  pub labels : Fields
  pub networks : Fields

-- `summaryRecord.normalise`.
unfoldable pub normalise_summary : SummaryRecord → Container
normalise_summary r = record {
  id = r.id;
  service = field_of compose_service_label r.labels;
  project = field_of compose_project_label r.labels;
  networks = addresses r.networks;
  started_at = "";
}

pub record Transport (World : Type 0) : Type 0 where
  pub list_summaries : World → Result String (List SummaryRecord) × World
  pub list_inspects : World → Result String (List InspectRecord) × World
  pub inspect_one : String → World → Result String InspectRecord × World
  pub restart_one : String → World → Option String × World
  pub top : Dialect → String → World → Result String (List (List String)) × World

-- `New` stores the project name in lower case.
pub record Client : Type 0 where
  pub dialect : Dialect
  pub project : String
  pub ipv4_network : String

-- The project filter of `List`.
abbrev pub is_mine : Client → Container → Bool
is_mine c k = str_eq c.project "" || contains (to_lower (codes k.project)) (codes c.project)

abbrev pub listed :
    {A : Type 0}
    → Client
    → (A → Container)
    → Result String (List A)
    → Result String (List Container)
listed c normalise (err e) = err e
listed c normalise (ok raw) = ok (select (is_mine c) (map normalise raw))

module _ {World : Type 0} (io : Transport World) where
  -- `List`.
  unfoldable pub list : Client → World → Result String (List Container) × World
  list c w =
      let (summaries, w₁) = io.list_summaries w in
      let (inspects, w₂) = io.list_inspects w in
      if is_engine c.dialect
      then (listed c normalise_summary summaries, w₁)
      else (listed c normalise_inspect inspects, w₂)

  -- `Inspect`.
  unfoldable pub inspect : String → World → Result String Container × World
  inspect id w =
      let (answer, w') = io.inspect_one id w in (answer >>= λ r. ok (normalise_inspect r), w')

  -- The loop of `Find`: one inspection for each match whose start time is missing.
  unfoldable pub fill_in :
      Client → String → List Container → World → Result String (List Container) × World
  fill_in c service [] w = (ok [], w)
  fill_in c service (k ∷ ks) w =
      let skip = fill_in c service ks w in
      let (rest, w') = fill_in c service ks w in
      let (full, w₁) = inspect k.id w in
      let (rest₁, w₂) = fill_in c service ks w₁ in
      let filled : Result String (List Container) × World = elim full [
        | err e ↦ (err e, w₁)
        | ok f ↦ (rest₁ >>= λ more. ok (record k { started_at = f.started_at } ∷ more), w₂)
      ] in
      if not (str_eq k.service service)
      then skip
      else if str_eq k.started_at "" && is_engine c.dialect
      then filled
      else (rest >>= λ more. ok (k ∷ more), w')

  -- `Find`.
  unfoldable pub find : Client → String → World → Result String (List Container) × World
  find c service w =
      let (all, w') = list c w in
      let searched : Result String (List Container) × World = elim all [
        | err e ↦ (err e, w')
        | ok ks ↦ fill_in c service ks w'
      ] in
      searched

  -- The loop of `Running` over the process list.
  unfoldable pub running : Client → String → String → World → Result String Bool × World
  running c id want w =
      let (processes, w') = io.top c.dialect id w in
      (processes >>= λ ps. ok (any (λ p. contains (codes (join " " p)) (codes want)) ps), w')

-- `pickAddress`: the first address on the network. Go visits the map in a random order.
unfoldable pub pick_address : Client → Fields → String
pick_address c [] = ""
pick_address c ((name, address) ∷ networks) =
    if not (str_eq c.ipv4_network "") && not (has_prefix (codes address) (codes c.ipv4_network))
    then pick_address c networks
    else address

-- The last loop of `IP`, over the shuffled matches.
unfoldable pub first_address : Client → List Container → Option String
first_address c [] = none
first_address c (k ∷ ks) =
    let rest = first_address c ks in
    let ip = pick_address c k.networks in if str_eq ip "" then rest else some ip

-- `IP` on the containers that run the service. The shuffle stands for the random source.
abbrev pub address_among :
    (List Container → List Container) → Client → String → List Container → Result String String
address_among shuffle c service [] =
    err
      (sprintf "no container runs the service %q in project %q" (str service ∷ str c.project ∷ []))
address_among shuffle c service (m ∷ ms) = elim (first_address c (shuffle (m ∷ ms))) [
  | none ↦
      err
        (sprintf "service %q has no address on network %q" (str service ∷ str c.ipv4_network ∷ []))
  | some address ↦ ok address
]

-- `IP`.
unfoldable pub ip :
    {World : Type 0}
    → Transport World
    → (List Container → List Container)
    → Client
    → String
    → World
    → Result String String × World
ip io shuffle c service w =
    let (all, w') = list io c w in
    (all >>= λ ks. address_among shuffle c service (select (λ k. str_eq k.service service) ks), w')
