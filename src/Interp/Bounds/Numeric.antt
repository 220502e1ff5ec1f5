-- ===== src/Interp/Bounds/Numeric.antt =====
-- The constants, comparisons, arithmetic and conversions keep the limits.
use deepvm.Base.{ℕ, Option, none, some, Result, ok, err}
use deepvm.Opcode.Kinds.{
  Const, i32_const, i64_const, f32_const, f64_const, IntType, IntCompare, eqz, IntUnary, IntBinary,
  FloatType, FloatCompare, FloatUnary, FloatBinary, Conversion, i32_trunc_f32_s, i32_trunc_f32_u,
  i32_trunc_f64_s, i32_trunc_f64_u, i64_trunc_f32_s, i64_trunc_f32_u, i64_trunc_f64_s,
  i64_trunc_f64_u, i32_reinterpret_f32, i64_reinterpret_f64, f32_reinterpret_i32,
  f64_reinterpret_i64,
}
use deepvm.Vm.State.{◌>>=◌, return, pop, push}
use deepvm.Vm.Floats.{Floats}
use deepvm.Vm.Keeps.{Limits, stops, ends, Keeps, Keeps-bind, Keeps-pop, Keeps-push, Keeps-read_ip}
use deepvm.Interp.Instructions.{
  lift, defined, exec_const, exec_int_compare, exec_int_unary, exec_int_binary, exec_float_compare,
  exec_float_unary, exec_float_binary, exec_convert,
}

module _ (c : Limits) where
  pub Keeps-return : {A : Type 0} (a : A) → Keeps c (return a)
  Keeps-return a s w = ends w

  pub Keeps-lift : {A : Type 0} (r : Result A) → Keeps c (lift r)
  Keeps-lift (ok a) s w = ends w
  Keeps-lift (err e) s w = stops

  Keeps-defined : {A : Type 0} (o : Option A) → Keeps c (defined o)
  Keeps-defined (some a) s w = ends w
  Keeps-defined none s w = stops

  -- An operand, or two, then the result.
  Keeps-unary : (n k : ℕ) (f : ℕ → ℕ) → Keeps c (do x ← pop n; push k (f x))
  Keeps-unary n k f = Keeps-bind c _ _ (Keeps-pop c n) (λ x. Keeps-push c k (f x))

  Keeps-binary : (n k : ℕ) (f : ℕ → ℕ → ℕ) → Keeps c (do a ← pop n; b ← pop n; push k (f a b))
  Keeps-binary n k f = Keeps-bind c _ _ (Keeps-pop c n) (λ a. Keeps-unary n k (f a))

  Keeps-partial : (n k : ℕ) (f : ℕ → Option ℕ) → Keeps c (do x ← pop n; y ← defined (f x); push k y)
  Keeps-partial n k f =
      Keeps-bind c _ _ (Keeps-pop c n)
        λ x. Keeps-bind c _ _ (Keeps-defined (f x)) (λ y. Keeps-push c k y)

  pub exec_const-Keeps : (o : Const) → Keeps c (exec_const o)
  unfolding exec_const
  exec_const-Keeps i32_const = Keeps-bind c _ _ (Keeps-read_ip c _) (λ x. Keeps-push c 4 x)
  exec_const-Keeps i64_const = Keeps-bind c _ _ (Keeps-read_ip c _) (λ x. Keeps-push c 8 x)
  exec_const-Keeps f32_const =
      Keeps-bind c _ _ (Keeps-read_ip c _)
        λ x. Keeps-bind c _ _ (Keeps-push c 4 x) (λ _. Keeps-unary 4 4 (λ y. y))
  exec_const-Keeps f64_const = Keeps-bind c _ _ (Keeps-read_ip c _) (λ x. Keeps-push c 8 x)

  pub exec_int_compare-Keeps : (t : IntType) (o : IntCompare) → Keeps c (exec_int_compare t o)
  unfolding exec_int_compare
  exec_int_compare-Keeps t eqz = Keeps-unary _ 4 _
  exec_int_compare-Keeps t _ = Keeps-binary _ 4 _

  pub exec_int_unary-Keeps : (t : IntType) (o : IntUnary) → Keeps c (exec_int_unary t o)
  unfolding exec_int_unary
  exec_int_unary-Keeps t o = Keeps-unary _ _ _

  pub exec_int_binary-Keeps : (t : IntType) (o : IntBinary) → Keeps c (exec_int_binary t o)
  unfolding exec_int_binary
  exec_int_binary-Keeps t o = Keeps-bind c _ _ (Keeps-pop c _) λ a.
      Keeps-bind c _ _ (Keeps-pop c _) λ b. Keeps-bind c _ _ (Keeps-lift _) (λ r. Keeps-push c _ r)

  module _ (fl : Floats) where
    pub exec_float_compare-Keeps :
        (t : FloatType) (o : FloatCompare) → Keeps c (exec_float_compare fl t o)
    unfolding exec_float_compare
    exec_float_compare-Keeps t o = Keeps-binary _ 4 _

    pub exec_float_unary-Keeps :
        (t : FloatType) (o : FloatUnary) → Keeps c (exec_float_unary fl t o)
    unfolding exec_float_unary
    exec_float_unary-Keeps t o = Keeps-unary _ _ _

    pub exec_float_binary-Keeps :
        (t : FloatType) (o : FloatBinary) → Keeps c (exec_float_binary fl t o)
    unfolding exec_float_binary
    exec_float_binary-Keeps t o = Keeps-binary _ _ _

    pub exec_convert-Keeps : (o : Conversion) → Keeps c (exec_convert fl o)
    unfolding exec_convert
    exec_convert-Keeps i32_trunc_f32_s = Keeps-partial 4 4 _
    exec_convert-Keeps i32_trunc_f32_u = Keeps-partial 4 4 _
    exec_convert-Keeps i32_trunc_f64_s = Keeps-partial 8 4 _
    exec_convert-Keeps i32_trunc_f64_u = Keeps-partial 8 4 _
    exec_convert-Keeps i64_trunc_f32_s = Keeps-partial 4 8 _
    exec_convert-Keeps i64_trunc_f32_u = Keeps-partial 4 8 _
    exec_convert-Keeps i64_trunc_f64_s = Keeps-partial 8 8 _
    exec_convert-Keeps i64_trunc_f64_u = Keeps-partial 8 8 _
    exec_convert-Keeps i32_reinterpret_f32 = Keeps-return tt
    exec_convert-Keeps i64_reinterpret_f64 = Keeps-return tt
    exec_convert-Keeps f32_reinterpret_i32 = Keeps-return tt
    exec_convert-Keeps f64_reinterpret_i64 = Keeps-return tt
    exec_convert-Keeps _ = Keeps-unary _ _ _
