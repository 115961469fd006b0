-- ===== src/DockerApi/Wire.antt =====
-- internal/dockerapi/dockerapi.go: the calls of the API over HTTP. The HTTP client is the browser of
-- Probe.Http, and what the JSON decoder makes of a body is a parameter for each shape.
use mailcow_watchdog.Prelude.{
  ◌||◌, String, List, [], ◌∷◌, Option, none, some, Result, ok, err, ltb, leb, if◌then◌else◌,
}
use mailcow_watchdog.Prelude.Format.{concat, str, sprintf}
use mailcow_watchdog.Probe.Http.{Response, Browser}
use mailcow_watchdog.DockerApi.{SummaryRecord, InspectRecord, Transport}
use mailcow_watchdog.DockerApi.Dialects.{Dialect, is_engine}

-- The decoders; the process table comes plain from the daemon and wrapped from the mailcow service.
pub record Decoders : Type 0 where
  pub summaries : String → Result String (List SummaryRecord)
  pub inspects : String → Result String (List InspectRecord)
  pub inspect : String → Result String InspectRecord
  pub processes : String → Result String (List (List String))
  pub wrapped_processes : String → Result String (List (List String))
  pub path_escape : String → String

-- The tests of `do` on what was read.
abbrev pub checked : String → String → Response → Result String String
checked method path response = elim response.content [
  | err e ↦ err (sprintf "reading the %s %s response: %w" (str method ∷ str path ∷ str e ∷ []))
  | ok body ↦
      if ltb response.code 200 || leb 300 response.code
      then err (sprintf "%s %s returned %s" (str method ∷ str path ∷ str response.status ∷ []))
      else ok body
]

abbrev pub answered : String → String → Result String Response → Result String String
answered method path (err e) = err (sprintf "%s %s: %w" (str method ∷ str path ∷ str e ∷ []))
answered method path (ok response) = checked method path response

abbrev pub decoded {ℓ} :
    {A : Type ℓ}
    → (String → Result String A)
    → String
    → String
    → Result String String
    → Result String A
decoded decode method path (err e) = err e
decoded decode method path (ok body) = elim (decode body) [
  | err e ↦ err (sprintf "decoding the %s %s response: %w" (str method ∷ str path ∷ str e ∷ []))
  | ok value ↦ ok value
]

module _ {World : Type 0} (browser : Browser World) (base_url : String) where
  -- `do` up to the decoding.
  unfoldable pub request : String → String → World → Result String String × World
  request method path w = elim (browser.build method (concat (base_url ∷ path ∷ [])) "") [
    | err e ↦
        (err (sprintf "building the %s %s request: %w" (str method ∷ str path ∷ str e ∷ [])), w)
    | ok r ↦ let (answer, w') = browser.exchange r w in (answered method path answer, w')
  ]

  -- `do` with a value to decode into, and `get`.
  unfoldable pub call {ℓ} :
      {A : Type ℓ} → (String → Result String A) → String → String → World → Result String A × World
  call decode method path w =
      let (answer, w') = request method path w in (decoded decode method path answer, w')

  module _ (json : Decoders) where
    abbrev pub container_path : String → String → String
    container_path id verb = concat ("/containers/" ∷ json.path_escape id ∷ verb ∷ [])

    -- `Restart`.
    unfoldable pub post_restart : String → World → Option String × World
    post_restart id w =
        let (answer, w') = request "POST" (container_path id "/restart") w in
        (elim answer [ err e ↦ some e | ok body ↦ none ], w')

    -- `Top`.
    unfoldable pub top : Dialect → String → World → Result String (List (List String)) × World
    top dialect id w =
        if is_engine dialect
        then call json.processes "GET" (container_path id "/top") w
        else call json.wrapped_processes "POST" (container_path id "/top") w

    -- The five calls of the client.
    unfoldable pub http_transport : Transport World
    http_transport = record {
      list_summaries = call json.summaries "GET" "/containers/json";
      list_inspects = call json.inspects "GET" "/containers/json";
      inspect_one = λ id. call json.inspect "GET" (container_path id "/json");
      restart_one = post_restart;
      top = top;
    }
