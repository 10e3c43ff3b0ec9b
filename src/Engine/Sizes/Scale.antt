-- ===== src/Engine/Sizes/Scale.antt =====
-- kaitai/expr/engine/sizeof.go: a sum of widths in bytes, in bits.
use zanbato.Base.{
  ℕ, ◌*◌, ◌||◌, Option, none, some, List, [], ◌∷◌, Text, text_eq, ◌==◌, if◌then◌else◌, ◌≡◌, ap, ap₂,
  ◌∙◌, arith,
}
use zanbato.Expr.Ast.{Node}
use zanbato.Types.Kind.{user}
use zanbato.Types.TypeRef.{TypeRef, UserType}
use zanbato.Schema.{Attr, Struct, struct, Structs}
use zanbato.Engine.Sizes.{present}
use zanbato.Engine.Sizes.Exact.{
  some_inj, if-fits, if-some, sum, sum-some, ref_width, unsized_width, any_width, seq_width,
  struct_width, named_width,
}

module _ {F : Type 0} (p q : TypeRef (Node F) → Option ℕ)
    (eightfold : (ref : TypeRef (Node F)) (n : ℕ) → p ref ≡ some n → q ref ≡ some (8 * n)) where
  module _ (child child' : Text → Option ℕ)
      (nested : (name : Text) (n : ℕ) → child name ≡ some n → child' name ≡ some (8 * n)) where
    user-scaled :
        (o : Option (UserType (Node F))) (n : ℕ)
        → unsized_width child o ≡ some n
        → unsized_width child' o ≡ some (8 * n)
    user-scaled none n h = cc
    user-scaled (some t) n h = if-fits (present t.size) h (λ e. absurd (cc)) (nested t.name n)

    any_width-scaled :
        (o : Option (TypeRef (Node F))) (n : ℕ)
        → any_width (ref_width p child) o ≡ some n
        → any_width (ref_width q child') o ≡ some (8 * n)
    any_width-scaled none n h = cc
    any_width-scaled (some ref) n h =
        if-fits (ref.kind == user) h (user-scaled ref.user n) (eightfold ref n)

    seq_width-scaled :
        (n : ℕ) (seq : List (Attr (Node F)))
        → seq_width p child seq ≡ some n
        → seq_width q child' seq ≡ some (8 * n)
    unfolding seq_width
    seq_width-scaled n [] h = ap some (omega (arith, some_inj h))
    seq_width-scaled n (attr ∷ rest) h =
        let (plain, h) =
          if-some ((present attr.repeat || present attr.if_) || attr.size_eos) _ n h in
        let (m, l, here, later, e) = sum-some _ _ n h in
        ap
          (λ b.
            if b
            then none
            else sum (any_width (ref_width q child') attr.type.type_ref) (seq_width q child' rest))
          plain
        ∙ ap₂ sum (any_width-scaled attr.type.type_ref m here) (seq_width-scaled l rest later)
        ∙ ap some (omega (arith, e))

  mutual
    unfolding struct_width named_width

    pub struct_width-scaled :
        (n : ℕ) (s : Struct (Node F)) → struct_width p s ≡ some n → struct_width q s ≡ some (8 * n)
    struct_width-scaled n (struct body structs) h =
        seq_width-scaled (λ name. named_width p name structs) (λ name. named_width q name structs)
          (λ name m h. named_width-scaled m name structs h) n body.seq h

    named_width-scaled :
        (n : ℕ) (name : Text) (ss : Structs (Node F))
        → named_width p name ss ≡ some n
        → named_width q name ss ≡ some (8 * n)
    named_width-scaled n name Structs.nil h = cc
    named_width-scaled n name (Structs.cons (struct body structs) rest) h =
        if-fits (text_eq body.id name) h (struct_width-scaled n (struct body structs))
          (named_width-scaled n name rest)
