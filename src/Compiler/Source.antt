-- ===== src/Compiler/Source.antt =====
-- The nodes of a harness graph, src/millforge/compiler/source.py, and the catalog entries that the
-- validation of the graph reads.
use millforge.Prelude.{String, str_eq, List, [], ◌∷◌, Bool, Option, none, some, if◌then◌else◌}

pub record ArgumentMatchSource : Type 0 where
  pub prior_argument : String
  pub current_argument : String

pub record PrerequisiteSource : Type 0 where
  pub node_id : String
  pub argument_matches : List ArgumentMatchSource

pub record HarnessNodeSource : Type 0 where
  pub node_id : String
  pub tool_ref : String
  pub required : Bool
  pub prerequisites : List PrerequisiteSource
  pub terminal_result : Option String
  pub produces : List String

-- A value of a schema.
mutual
  pub data Value : Type 0 where
    null : Value
    boolean : Bool → Value
    number : String → Value
    text : String → Value
    array : Items → Value
    object : Fields → Value

  pub data Items : Type 0 where
    nil : Items
    cons : Value → Items → Items

  pub data Fields : Type 0 where
    end : Fields
    field : String → Value → Fields → Fields

-- `schema.get(key)`
unfoldable pub get_field : String → Fields → Option Value
get_field k end = none
get_field k (field j v fs) = if str_eq j k then some v else get_field k fs

-- The texts of a sequence of values.
unfoldable pub texts_of : Items → List String
texts_of nil = []
texts_of (cons (text s) xs) = s ∷ texts_of xs
texts_of (cons v xs) = texts_of xs

pub record ToolCatalogEntry : Type 0 where
  pub input_schema : Fields
  pub required_capabilities : List String

pub record ResolvedNodeDescriptor : Type 0 where
  pub node_id : String
  pub source : HarnessNodeSource
  pub descriptor : ToolCatalogEntry

-- A value of `resolved_nodes`.
pub data ResolvedNode : Type 0 where
  entry : ToolCatalogEntry → ResolvedNode
  resolved : ResolvedNodeDescriptor → ResolvedNode
