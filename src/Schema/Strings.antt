-- ===== src/Schema/Strings.antt =====
-- kaitai/parse.go, buildAttr: the encoding of a string attribute.
use zanbato.Base.{
  Bool, true, ◌||◌, some, [], Text, codes, text_eq, if◌then◌else◌, ◌≡◌, refl, ap, subst, ◌∙◌, ◌⊎◌,
  inl, inr, arith,
}
use zanbato.Base.Platform.{Unicode, BigFloat}
use zanbato.Expr.Ast.{Node}
use zanbato.Types.Parse.{
  ok, parse_type_ref, strip_suffix, parse_type_ref_inner, parse_basic_data_type, basic_ref,
}
use zanbato.Types.Parse.Split.{is_space}
use zanbato.Types.Parse.WellKinded.{all_ok}
use zanbato.Types.Attr.{AttributeSpec, given, parse_plain_type, parse_attr_type}
use zanbato.Schema.{Attr}
use zanbato.Schema.Inversion.{built}
use zanbato.Types.Attr.Safety.{plain_type}
use zanbato.Schema.Translate.{trim_space, trim_left, trim_right, with_encoding, build_attr}
use zanbato.Schema.Setters.{
  same, same→eq, given-own, bind-all, all_ok-ok, all_ok-at, encoded, set_given_size-encoded,
  set_contents-encoded, set_size_eos-encoded, set_encoding-encoded, set_stream_attrs-encoded,
  string_encoding, encoded-string_encoding,
}

-- The type name of a string, before and behind TrimSpace.
abbrev pub IsString : Text → Type 0
IsString s = (s ≡ codes "str") ⊎ (s ≡ codes "strz")

renamed : {s t : Text} → s ≡ t → IsString t → IsString s
renamed h (inl k) = inl (h ∙ k)
renamed h (inr k) = inr (h ∙ k)

module _ (u : Unicode) (fl : BigFloat) where
  str_ref : all_ok (encoded []) (parse_type_ref u fl (codes "str")) ≡ true
  unfolding parse_type_ref all_ok strip_suffix parse_type_ref_inner parse_basic_data_type encoded
      basic_ref
  str_ref = refl

  strz_ref : all_ok (encoded []) (parse_type_ref u fl (codes "strz")) ≡ true
  unfolding parse_type_ref all_ok strip_suffix parse_type_ref_inner parse_basic_data_type encoded
      basic_ref
  strz_ref = refl

  abbrev ref_encoded : Text → Bool
  ref_encoded s = all_ok (encoded []) (parse_type_ref u fl (if given s then s else codes "bytes"))

  type_ref-encoded : (s : Text) → IsString s → ref_encoded s ≡ true
  type_ref-encoded s (inl h) = ap ref_encoded h ∙ str_ref
  type_ref-encoded s (inr h) = ap ref_encoded h ∙ strz_ref

  parse_plain_type-encoded :
      (attr : AttributeSpec) (i : Bool)
      → IsString attr.type_value
      → all_ok (λ type. same attr.encoding (string_encoding type)) (parse_plain_type u fl attr i)
        ≡ true
  unfolding parse_plain_type
  parse_plain_type-encoded attr i h =
      let e = if given attr.encoding then attr.encoding else [] in
      bind-all (encoded e) (λ type. same attr.encoding (string_encoding type)) _ _
        (bind-all (encoded e) (encoded e) _ _
          (bind-all (encoded []) (encoded e) _ _
            (bind-all (encoded []) (encoded []) _ _
              (bind-all (encoded []) (encoded []) _ _
                (bind-all (encoded []) (encoded []) _ _ (type_ref-encoded attr.type_value h)
                  (set_given_size-encoded u fl [] i attr))
                (set_contents-encoded u fl [] attr.contents))
              (set_size_eos-encoded [] attr.size_eos))
            (set_encoding-encoded [] attr.encoding))
          (set_stream_attrs-encoded e attr))
        (λ t k.
          all_ok-ok (λ type. same attr.encoding (string_encoding type)) _
            (encoded-string_encoding attr.encoding t
              (subst (λ e. encoded e t ≡ true) (given-own attr.encoding) k)))

  trimmed :
      (s : Text)
      → IsString s
      → (text_eq (trim_space s) (codes "str") || text_eq (trim_space s) (codes "strz")) ≡ true
  unfolding trim_space trim_left trim_right is_space
  trimmed s (inl h) =
      ap (λ s. text_eq (trim_space s) (codes "str") || text_eq (trim_space s) (codes "strz")) h
  trimmed s (inr h) =
      ap (λ s. text_eq (trim_space s) (codes "str") || text_eq (trim_space s) (codes "strz")) h

  with_encoding-string :
      (default : Text) (attr : AttributeSpec)
      → IsString attr.type_value
      → ((with_encoding default attr).encoding
          ≡ (if given attr.encoding then attr.encoding else default))
        × ((with_encoding default attr).type_value ≡ attr.type_value)
        × ((with_encoding default attr).switch_on ≡ attr.switch_on)
  unfolding with_encoding
  with_encoding-string default attr h = ground (arith, trimmed attr.type_value h)

  parse_attr_type-encoded :
      (attr : AttributeSpec) (i : Bool)
      → IsString attr.type_value
      → attr.switch_on ≡ []
      → all_ok (λ type. same attr.encoding (string_encoding type)) (parse_attr_type u fl attr i)
        ≡ true
  parse_attr_type-encoded attr i h k =
      ap (all_ok (λ type. same attr.encoding (string_encoding type)))
        (plain_type u fl attr i (ap given k))
      ∙ parse_plain_type-encoded attr i h

  -- An attribute of the type str or strz that is no switch, if it is translated at all, is a string
  -- with the encoding that it declares, or else with that of the type around it.
  pub build_attr-encoding :
      (id : Text) (attr : AttributeSpec) (default : Text) (i : Bool) (a : Attr (Node fl.Float))
      → IsString attr.type_value
      → attr.switch_on ≡ []
      → build_attr u fl id attr default i ≡ ok a
      → string_encoding a.type ≡ some (if given attr.encoding then attr.encoding else default)
  build_attr-encoding id attr default i a h k e =
      let with_default = with_encoding default attr in
      let (own, name, switch) = with_encoding-string default attr h in
      let (same_id, typed) = built u fl id attr default i a e in
      same→eq with_default.encoding (string_encoding a.type) (
        all_ok-at (λ type. same with_default.encoding (string_encoding type)) typed
          (parse_attr_type-encoded with_default i (renamed name h) (switch ∙ k)))
      ∙ ap some own
