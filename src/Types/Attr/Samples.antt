-- ===== src/Types/Attr/Samples.antt =====
-- An attribute whose spec gives nothing, for runs at concrete inputs.
use zanbato.Base.{none, [], false}
use zanbato.Types.Attr.{AttributeSpec}

abbrev pub blank : AttributeSpec
blank = record {
  id = [];
  doc = [];
  contents = none;
  type_value = [];
  switch_on = [];
  cases = [];
  repeat = [];
  repeat_expr = [];
  repeat_until = [];
  if_ = [];
  size = [];
  size_eos = false;
  process = [];
  enum = [];
  encoding = [];
  pad_right = none;
  terminator = none;
  consume = none;
  include_ = none;
  eos_error = none;
  pos = [];
  io = [];
  value = [];
  valid = none;
  parent = none;
}
