-- ===== src/Settings/Logs.antt =====
-- logger/adapters/zerolog/zerolog.go: levels, writers, and what a logger adds to its lines; and the
-- reads of a context in logger/api/logger.go.
use go_utilities.Base.{
  Bool, List, [], ◌∷◌, ◌++◌, Option, none, some, if◌then◌else◌, ◌==◌, ◌||◌, ◌&&◌,
}
use go_utilities.Base.Dict.{Dict}
use go_utilities.Base.Text.{Text, codes, text_eq, to_lower}
use go_utilities.Settings.Configs.{LogConfig}

pub data Level : Type 0 where
  debug_level info_level warn_level error_level fatal_level disabled : Level

unfoldable pub parse_level : Text → Level
parse_level level =
    let l = to_lower level in
    if l == codes "debug"
    then debug_level
    else if l == codes "info"
    then info_level
    else if l == codes "warn"
    then warn_level
    else if l == codes "error"
    then error_level
    else if l == codes "fatal"
    then fatal_level
    else if l == codes "none" || (l == codes "off" || l == codes "silent")
    then disabled
    else info_level

pub data Writer : Type 0 where
  stdout : Writer

-- "file" has no writer yet.
unfoldable pub setup_writers : Text → List Writer
setup_writers output =
    if output == codes "stdout"
    then stdout ∷ []
    else if output == codes "file"
    then []
    else if output == codes "both"
    then stdout ∷ []
    else stdout ∷ []

-- A field of a line, with its value as a text.
abbrev pub Field : Type 0
Field = Text × Text

-- A logger: whether it prints for a console, its writers, what its lines begin with, and its
-- component. The level is zerolog's global one.
pub record ZeroLogger : Type 0 where
  pub pretty : Bool
  pub writers : List Writer
  pub context : List Field
  pub component : Text

abbrev pub fields_of : Dict Text → List Field
fields_of [] = []
fields_of ((k, v) ∷ fields) = (codes k, v) ∷ fields_of fields

unfoldable pub new_zerologger : LogConfig → Level × ZeroLogger
unfolding parse_level setup_writers
new_zerologger cfg = (
  parse_level cfg.level,
  record {
    pretty = cfg.format == codes "pretty" && cfg.environment == codes "dev";
    writers = setup_writers cfg.output;
    context = fields_of cfg.fields;
    component = [];
  },
)

unfoldable pub with_trace_id : Text → ZeroLogger → ZeroLogger
with_trace_id trace l =
    if trace == [] then l else record l { context = l.context ++ (codes "trace_id", trace) ∷ [] }

unfoldable pub with_fields : List Field → ZeroLogger → ZeroLogger
with_fields fields l = record l { context = l.context ++ fields }

unfoldable pub with_component : Text → ZeroLogger → ZeroLogger
with_component component l = if component == [] then l else record l {
  context = l.context ++ (codes "component", component) ∷ [];
  component = component;
}

unfoldable pub add_field : Text → Text → ZeroLogger → ZeroLogger
add_field key value l = record l { context = l.context ++ (key, value) ∷ [] }

-- A context of a request, as far as the logger reads it: `none` for a nil context.
pub record RequestContext : Type 0 where
  pub logger : Option ZeroLogger
  pub trace_id : Option Text
  pub component : Option Text

unfoldable pub get_trace_id_from_context : Option RequestContext → Text
get_trace_id_from_context none = []
get_trace_id_from_context (some c) = elim c.trace_id [ none ↦ [] | some t ↦ t ]

unfoldable pub get_logger_from_context : Option RequestContext → Option ZeroLogger
get_logger_from_context none = none
get_logger_from_context (some c) = c.logger

abbrev pub background : RequestContext
background = record { logger = none; trace_id = none; component = none }

abbrev pub put_component : Text → RequestContext → RequestContext
put_component component c = if component == [] then c else record c { component = some component }

abbrev pub or_background : Option RequestContext → RequestContext
or_background none = background
or_background (some c) = c

unfoldable pub to_context : ZeroLogger → Option RequestContext → RequestContext
to_context l given = put_component l.component (record (or_background given) { logger = some l })

-- `addContextFields` and `addFields`
abbrev pub add_context_fields : Option RequestContext → List Field
add_context_fields c =
    let trace = get_trace_id_from_context c in
    if trace == [] then [] else (codes "trace_id", trace) ∷ []

abbrev pub add_fields : ZeroLogger → List Field → List Field
add_fields l fields =
    if l.component == [] then fields else (codes "component", l.component) ∷ fields

-- The fields of a line: those of the logger, of the context, the error, and those of the call.
unfoldable pub event_fields :
    ZeroLogger → Option RequestContext → Option Text → List Field → List Field
unfolding get_trace_id_from_context
event_fields l c none fields = l.context ++ (add_context_fields c ++ add_fields l fields)
event_fields l c (some e) fields =
    l.context ++ (add_context_fields c ++ (codes "error", e) ∷ add_fields l fields)
