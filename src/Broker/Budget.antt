-- ===== src/Broker/Budget.antt =====
-- `bounded_json` in native/src/broker.rs: the walk that bounds schemas and arguments. The bytes of
-- serde_json's encoding and of a string are parameters.
use repl_mcp.Base.{
  String, Bool, ℕ, ◌==◌, Result, ◌>>=◌, suc, refuse_if, ◌||◌, ◌>>◌, ltb, ◌&&◌, false, string_eq, ok,
}
use repl_mcp.Json.{
  Value, Items, cons, array, str, nil, object, bool, unsigned, number, Fields, field, null, end,
}
pub mod Within

pub data Excess : Type 0 where
  bytes depth_or_nodes composition pattern : Excess

abbrev pub items_count : Items → ℕ
items_count nil = 0
items_count (cons v vs) = suc (items_count vs)

-- val.as_array().is_some_and(|v| v.len() > 16)
abbrev pub is_wide : Value → Bool
is_wide (array vs) = ltb 16 (items_count vs)
is_wide v = false

abbrev pub is_composition : String → Bool
is_composition key = key == "anyOf" || (key == "oneOf" || key == "allOf")

module _ (byte_len : String → ℕ) (max_depth max_nodes : ℕ) where
  abbrev pub is_long : Value → Bool
  is_long (str s) = ltb 256 (byte_len s)
  is_long v = false

  abbrev pub check_node : ℕ → ℕ → Result Excess (Unit {0})
  check_node depth nodes = refuse_if (ltb max_depth depth || ltb max_nodes nodes) depth_or_nodes

  abbrev pub check_field : String → Value → Result Excess (Unit {0})
  check_field key v = do
    refuse_if (is_composition key && is_wide v) composition
    refuse_if (key == "pattern" && is_long v) pattern

  unfoldable mutual
    -- visit, with the count of nodes that the source keeps in `*nodes`.
    pub visit : Value → ℕ → ℕ → Result Excess ℕ
    visit (object fields) depth nodes =
        check_node depth (suc nodes) >> visit_fields fields (suc depth) (suc nodes)
    visit (array items) depth nodes =
        check_node depth (suc nodes) >> visit_items items (suc depth) (suc nodes)
    visit null depth nodes = check_node depth (suc nodes) >> ok (suc nodes)
    visit (bool b) depth nodes = check_node depth (suc nodes) >> ok (suc nodes)
    visit (unsigned n) depth nodes = check_node depth (suc nodes) >> ok (suc nodes)
    visit (number n) depth nodes = check_node depth (suc nodes) >> ok (suc nodes)
    visit (str s) depth nodes = check_node depth (suc nodes) >> ok (suc nodes)

    pub visit_items : Items → ℕ → ℕ → Result Excess ℕ
    visit_items nil depth nodes = ok nodes
    visit_items (cons v vs) depth nodes = visit v depth nodes >>= λ n. visit_items vs depth n

    pub visit_fields : Fields → ℕ → ℕ → Result Excess ℕ
    visit_fields end depth nodes = ok nodes
    visit_fields (field key v rest) depth nodes =
        check_field key v >> (visit v depth nodes >>= λ n. visit_fields rest depth n)

  unfoldable pub bounded_json : (Value → ℕ) → ℕ → Value → Result Excess (Unit {0})
  unfolding visit
  bounded_json encoded max_bytes value = do
    refuse_if (ltb max_bytes (encoded value)) bytes
    _ ← visit value 0 0
    ok tt
