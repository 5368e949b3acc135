-- ===== src/Adapt/Free.antt =====
-- What `drop_hosted_tool_conflicts` of upstream/src/pool/proxy.rs leaves of a request.
use codex_provider.Base.{
  ◌≡◌, ◌∙◌, refl, ap, String, Bool, true, false, ◌&&◌, not, Option, none, some, inl, inr, List,
  Bool-cases, str_eq,
}
use codex_provider.Base.Json.{
  Value, Items, Fields, null, boolean, number, string, array, object, no_elements, element,
  get_field, text_of, get-insert_field,
}
use codex_provider.Adapt.Tools.{
  hosted_tool_namespace, text_at, declared, declared_in, add_reserved, is_hosted, is_conflict,
  without_conflicts, any_conflict, filter_tools, filter_additional, filter_input, filter_items,
  drop_hosted_tool_conflicts, is_free, is_free_item, are_free_items, is_free_input,
}

without_conflicts-none :
    (reserved : List String) (vs : Items)
    → any_conflict reserved (without_conflicts reserved vs) ≡ false
unfolding without_conflicts any_conflict
without_conflicts-none reserved no_elements = refl
without_conflicts-none reserved (element v vs) = elim (Bool-cases (is_conflict reserved v)) [
  | inl e ↦ rw e (without_conflicts-none reserved vs)
  | inr e ↦ rw (e, e) (without_conflicts-none reserved vs)
]

conflict-client :
    (reserved : List String) (v : Value)
    → is_conflict reserved v ≡ true
    → hosted_tool_namespace (text_at "type" v) ≡ none
unfolding is_conflict
conflict-client reserved v e = client (hosted_tool_namespace (text_at "type" v)) _ e
  where
    client : (o : Option String) (b : Bool) → not (is_hosted o) && b ≡ true → o ≡ none
    client none b h = refl
    client (some n) b h = cc

-- A hosted tool is no conflict, so the filtered list declares the same namespaces.
declared-kept :
    (reserved : List String) (vs : Items) → declared (without_conflicts reserved vs) ≡ declared vs
unfolding without_conflicts declared
declared-kept reserved no_elements = refl
declared-kept reserved (element v vs) = elim (Bool-cases (is_conflict reserved v)) [
  | inl e ↦ rw (e, conflict-client reserved v e) (declared-kept reserved vs)
  | inr e ↦
      rw e
        (ap (add_reserved (hosted_tool_namespace (text_at "type" v))) (declared-kept reserved vs))
]

module _ (reserved : List String) where
  filter_tools-free :
      (o : Option Value) (fs : Fields)
      → get_field "tools" fs ≡ o
      → is_free reserved (get_field "tools" (filter_tools reserved o fs)) ≡ true
  unfolding filter_tools
  filter_tools-free none fs h = rw h refl
  filter_tools-free (some null) fs h = rw h refl
  filter_tools-free (some (boolean b)) fs h = rw h refl
  filter_tools-free (some (number n)) fs h = rw h refl
  filter_tools-free (some (string s)) fs h = rw h refl
  filter_tools-free (some (object gs)) fs h = rw h refl
  filter_tools-free (some (array vs)) fs h = elim (Bool-cases (any_conflict reserved vs)) [
    | inl e ↦
        rw
          (
            e,
            get-insert_field "tools" "tools" (array (without_conflicts reserved vs)) fs,
            without_conflicts-none reserved vs,
          )
          refl
    | inr e ↦ rw (e, h, e) refl
  ]

  filter_tools-declared :
      (o : Option Value) (fs : Fields)
      → get_field "tools" fs ≡ o
      → declared_in (get_field "tools" (filter_tools reserved o fs)) ≡ declared_in o
  unfolding filter_tools
  filter_tools-declared none fs h = rw h refl
  filter_tools-declared (some null) fs h = rw h refl
  filter_tools-declared (some (boolean b)) fs h = rw h refl
  filter_tools-declared (some (number n)) fs h = rw h refl
  filter_tools-declared (some (string s)) fs h = rw h refl
  filter_tools-declared (some (object gs)) fs h = rw h refl
  filter_tools-declared (some (array vs)) fs h = elim (Bool-cases (any_conflict reserved vs)) [
    | inl e ↦
        rw
          (
            e,
            get-insert_field "tools" "tools" (array (without_conflicts reserved vs)) fs,
            declared-kept reserved vs,
          )
          refl
    | inr e ↦ rw (e, h) refl
  ]

  filter_tools-other :
      (j : String) (o : Option Value) (fs : Fields)
      → str_eq "tools" j ≡ false
      → get_field j (filter_tools reserved o fs) ≡ get_field j fs
  unfolding filter_tools
  filter_tools-other j none fs h = refl
  filter_tools-other j (some null) fs h = refl
  filter_tools-other j (some (boolean b)) fs h = refl
  filter_tools-other j (some (number n)) fs h = refl
  filter_tools-other j (some (string s)) fs h = refl
  filter_tools-other j (some (object gs)) fs h = refl
  filter_tools-other j (some (array vs)) fs h = elim (Bool-cases (any_conflict reserved vs)) [
    | inl e ↦
        rw e (get-insert_field "tools" j (array (without_conflicts reserved vs)) fs ∙ rw h refl)
    | inr e ↦ rw e refl
  ]

  filter_additional-free : (v : Value) → is_free_item reserved (filter_additional reserved v) ≡ true
  unfolding filter_additional is_free_item text_at
  filter_additional-free null = refl
  filter_additional-free (boolean b) = refl
  filter_additional-free (number n) = refl
  filter_additional-free (string s) = refl
  filter_additional-free (array vs) = refl
  filter_additional-free (object fs) =
      elim (Bool-cases (str_eq (text_of (get_field "type" fs)) "additional_tools")) [
        | inl e ↦
            rw
              (
                e,
                filter_tools-other "type" (get_field "tools" fs) fs refl,
                e,
                filter_tools-free (get_field "tools" fs) fs refl,
              )
              refl
        | inr e ↦ rw (e, e) refl
      ]

  filter_input-free : (vs : Items) → are_free_items reserved (filter_input reserved vs) ≡ true
  unfolding filter_input are_free_items
  filter_input-free no_elements = refl
  filter_input-free (element v vs) = rw (filter_additional-free v, filter_input-free vs) refl

  filter_items-free :
      (o : Option Value) (fs : Fields)
      → get_field "input" fs ≡ o
      → is_free_input reserved (get_field "input" (filter_items reserved o fs)) ≡ true
  unfolding filter_items
  filter_items-free none fs h = rw h refl
  filter_items-free (some null) fs h = rw h refl
  filter_items-free (some (boolean b)) fs h = rw h refl
  filter_items-free (some (number n)) fs h = rw h refl
  filter_items-free (some (string s)) fs h = rw h refl
  filter_items-free (some (object gs)) fs h = rw h refl
  filter_items-free (some (array vs)) fs h = elim (Bool-cases (are_free_items reserved vs)) [
    | inl e ↦ rw (e, h) e
    | inr e ↦
        rw (e, get-insert_field "input" "input" (array (filter_input reserved vs)) fs)
          (filter_input-free vs)
  ]

  filter_items-other :
      (j : String) (o : Option Value) (fs : Fields)
      → str_eq "input" j ≡ false
      → get_field j (filter_items reserved o fs) ≡ get_field j fs
  unfolding filter_items
  filter_items-other j none fs h = refl
  filter_items-other j (some null) fs h = refl
  filter_items-other j (some (boolean b)) fs h = refl
  filter_items-other j (some (number n)) fs h = refl
  filter_items-other j (some (string s)) fs h = refl
  filter_items-other j (some (object gs)) fs h = refl
  filter_items-other j (some (array vs)) fs h = elim (Bool-cases (are_free_items reserved vs)) [
    | inl e ↦ rw e refl
    | inr e ↦ rw e (get-insert_field "input" j (array (filter_input reserved vs)) fs ∙ rw h refl)
  ]

-- The payload declares no tool of a client in a namespace that is reserved with its hosted tools,
-- neither among its tools nor in an item of its input.
pub record Free (reserved : List String) (fs : Fields) : Type 0 where
  pub tools : is_free reserved (get_field "tools" fs) ≡ true
  pub additional : is_free_input reserved (get_field "input" fs) ≡ true
  pub hosted : declared_in (get_field "tools" fs) ≡ reserved

-- Whatever the request declares, what is left has, in `tools` and in the `additional_tools` of its
-- input, no tool of a client in the namespace `image_gen` or in that of a hosted tool that the
-- request's `tools` declare, and its `tools` declare the same hosted tools.
pub drop_hosted_tool_conflicts-Free :
    (fs : Fields) → Free (declared_in (get_field "tools" fs)) (drop_hosted_tool_conflicts fs)
unfolding drop_hosted_tool_conflicts
drop_hosted_tool_conflicts-Free fs =
    let o = get_field "tools" fs in
    let reserved = declared_in o in
    let kept = filter_tools reserved o fs in
    let same = filter_items-other reserved "tools" (get_field "input" kept) kept refl in
    record {
      tools = rw same (filter_tools-free reserved o fs refl);
      additional = filter_items-free reserved (get_field "input" kept) kept refl;
      hosted = rw same (filter_tools-declared reserved o fs refl);
    }
