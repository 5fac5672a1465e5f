-- ===== src/Driver/Submit/Refs.antt =====
-- The references that bindings hold on buffer objects.
use strela_pynq.Base.{
  ℕ, ◌+◌, ◌-◌, ◌==◌, ◌≡◌, refl, List, [], ◌∷◌, Option, none, some, arith, if◌then◌else◌,
}
use strela_pynq.Uapi.{Binding, StridedBinding}
use strela_pynq.Driver.Binding.{Errno, strela_binding_check}
use strela_pynq.Driver.Submit.{
  Object, BoundTo, BoundColumn, QueuedJob, Refs, Got, unbound_columns, obj_get, obj_put,
  check_object, bind_object, strela_strided_binding_get, strela_binding_get, stride_one,
  column_output, column_input, get_columns, put_columns, strela_job_put_bindings,
}

-- How many references on object `j` a binding holds, and the bindings of columns and of a job.
abbrev pub held : Option ℕ → ℕ → ℕ
held none j = 0
held (some n) j = if j == n then 1 else 0

abbrev pub held_columns : List BoundColumn → ℕ → ℕ
held_columns [] j = 0
held_columns (c ∷ cs) j = held c.input.obj j + held c.output.obj j + held_columns cs j

abbrev pub held_job : QueuedJob → ℕ → ℕ
held_job job j = held job.config.obj j + held_columns job.columns j

obj_put-held : (o : Option ℕ) (refs : Refs) (j : ℕ) → obj_put o refs j ≡ refs j - held o j
unfolding obj_put
obj_put-held none refs j = omega arith
obj_put-held (some n) refs j = ground arith

put_columns-held :
    (cs : List BoundColumn) (refs : Refs) (j : ℕ)
    → put_columns cs refs j ≡ refs j - held_columns cs j
unfolding put_columns
put_columns-held [] refs j = omega arith
put_columns-held (c ∷ cs) refs j = omega (
  arith,
  put_columns-held cs (obj_put c.output.obj (obj_put c.input.obj refs)) j,
  obj_put-held c.output.obj (obj_put c.input.obj refs) j,
  obj_put-held c.input.obj refs j,
)

pub put_bindings-held :
    (job : QueuedJob) (refs : Refs) (j : ℕ)
    → strela_job_put_bindings job refs j ≡ refs j - held_job job j
unfolding strela_job_put_bindings
put_bindings-held job refs j = omega (
  arith,
  put_columns-held job.columns (obj_put job.config.obj refs) j,
  obj_put-held job.config.obj refs j,
)

-- A binding that its buffer's size lets through, bound to that buffer.
pub record IsChecked (objects : ℕ → Option Object) (src : StridedBinding) (b : BoundTo)
    : Type 0 where
  pub object : Object
  pub named : objects src.handle ≡ some object
  pub checked : strela_binding_check object.size src ≡ none
  pub bound : b ≡ record { obj = some object.number; offset = src.offset; count = src.count }

-- What getting a binding does: the references held are those of the result, and success is a check.
pub record Binds (objects : ℕ → Option Object) (src : StridedBinding) (refs : Refs)
    (g : Got BoundTo) : Type 0 where
  pub counts : (j : ℕ) → g.refs j ≡ refs j + held g.value.obj j
  pub checked : g.ret ≡ none → IsChecked objects src g.value

check_object-Binds :
    (objects : ℕ → Option Object) (src : StridedBinding) (o : Object) (refs : Refs)
    (r : Option Errno)
    → objects src.handle ≡ some o
    → strela_binding_check o.size src ≡ r
    → Binds objects src refs (check_object src o (obj_get o.number refs) r)
unfolding check_object obj_get obj_put
check_object-Binds objects src o refs (some e) at res = record {
  counts = λ j. ground arith;
  checked = λ h. cc;
}
check_object-Binds objects src o refs none at res = record {
  counts = λ j. ground arith;
  checked = λ h. record { object = o; named = at; checked = res; bound = refl };
}

bind_object-Binds :
    (objects : ℕ → Option Object) (src : StridedBinding) (refs : Refs) (f : Option Object)
    → objects src.handle ≡ f
    → Binds objects src refs (bind_object src refs f)
unfolding bind_object
bind_object-Binds objects src refs none at = record { counts = λ j. omega arith; checked = λ h. cc }
bind_object-Binds objects src refs (some o) at = check_object-Binds objects src o refs _ at refl

pub strided_binding_get-Binds :
    (objects : ℕ → Option Object) (src : StridedBinding) (refs : Refs)
    → Binds objects src refs (strela_strided_binding_get objects src refs)
unfolding strela_strided_binding_get
strided_binding_get-Binds objects src refs = bind_object-Binds objects src refs _ refl

pub binding_get-Binds :
    (objects : ℕ → Option Object) (src : Binding) (refs : Refs)
    → Binds objects (stride_one src) refs (strela_binding_get objects src refs)
unfolding strela_binding_get
binding_get-Binds objects src refs = strided_binding_get-Binds objects (stride_one src) refs

-- Each column's two bindings are checked, in order.
pub data AreChecked (objects : ℕ → Option Object)
    : List StridedBinding → List Binding → List BoundColumn → Type 0 where
  all_bound : {outs : List Binding} → AreChecked objects [] outs []
  no_output : {i : StridedBinding} {is : List StridedBinding} → AreChecked objects (i ∷ is) [] []
  column :
      {i : StridedBinding} {is : List StridedBinding} {o : Binding} {os : List Binding}
      {c : BoundColumn} {cs : List BoundColumn}
      → IsChecked objects i c.input
      → c.stride ≡ i.stride
      → IsChecked objects (stride_one o) c.output
      → AreChecked objects is os cs
      → AreChecked objects (i ∷ is) (o ∷ os) (c ∷ cs)

pub unbound_columns-held :
    (is : List StridedBinding) (j : ℕ) → held_columns (unbound_columns is) j ≡ 0
unbound_columns-held [] j = refl
unbound_columns-held (i ∷ is) j = omega (arith, unbound_columns-held is j)

-- What getting the columns does.
pub record BindsColumns (objects : ℕ → Option Object) (is : List StridedBinding) (os : List Binding)
    (refs : Refs) (g : Got (List BoundColumn)) : Type 0 where
  pub counts : (j : ℕ) → g.refs j ≡ refs j + held_columns g.value j
  pub checked : g.ret ≡ none → AreChecked objects is os g.value

module _ (objects : ℕ → Option Object) (i : StridedBinding) (is : List StridedBinding) (o : Binding)
    (os : List Binding) where
  column_output-BindsColumns :
      (input : BoundTo) (out : Got BoundTo) (refs : Refs) (rest : Got (List BoundColumn))
      (r : Option Errno)
      → out.ret ≡ r
      → ((j : ℕ) → out.refs j ≡ refs j + held input.obj j + held out.value.obj j)
      → IsChecked objects i input
      → (out.ret ≡ none → IsChecked objects (stride_one o) out.value)
      → BindsColumns objects is os out.refs rest
      → BindsColumns objects
          (i ∷ is)
          (o ∷ os)
          refs
          (column_output i is input r out.refs out.value rest)
  unfolding column_output
  column_output-BindsColumns input out refs rest (some e) at counts first second others = record {
    counts = λ j. omega (arith, counts j, unbound_columns-held is j);
    checked = λ h. cc;
  }
  column_output-BindsColumns input out refs rest none at counts first second others = record {
    counts = λ j. omega (arith, counts j, others.counts j);
    checked = λ h. column first refl (second at) (others.checked h);
  }

  column_input-BindsColumns :
      (input : Got BoundTo) (refs : Refs) (rest : Got (List BoundColumn)) (r : Option Errno)
      → input.ret ≡ r
      → Binds objects i refs input
      → (input.ret ≡ none → BindsColumns objects (i ∷ is) (o ∷ os) refs rest)
      → BindsColumns objects (i ∷ is) (o ∷ os) refs (column_input is r input.refs input.value rest)
  unfolding column_input
  column_input-BindsColumns input refs rest (some e) at b others = record {
    counts = λ j. omega (arith, b.counts j, unbound_columns-held is j);
    checked = λ h. cc;
  }
  column_input-BindsColumns input refs rest none at b others = others at

pub get_columns-BindsColumns :
    (objects : ℕ → Option Object) (is : List StridedBinding) (os : List Binding) (refs : Refs)
    → BindsColumns objects is os refs (get_columns objects is os refs)
unfolding get_columns
get_columns-BindsColumns objects [] os refs = record {
  counts = λ j. omega arith;
  checked = λ h. all_bound;
}
get_columns-BindsColumns objects (i ∷ is) [] refs = record {
  counts = λ j. omega arith;
  checked = λ h. no_output;
}
get_columns-BindsColumns objects (i ∷ is) (o ∷ os) refs =
    column_input-BindsColumns objects i is o os input refs _ input.ret refl first λ ok.
      column_output-BindsColumns objects i is o os input.value output refs rest output.ret refl
        (λ j. omega (arith, first.counts j, second.counts j)) (first.checked ok) second.checked
        (get_columns-BindsColumns objects is os output.refs)
  where
    input : Got BoundTo
    input = strela_strided_binding_get objects i refs

    output : Got BoundTo
    output = strela_binding_get objects o input.refs

    rest : Got (List BoundColumn)
    rest = get_columns objects is os output.refs

    first : Binds objects i refs input
    first = strided_binding_get-Binds objects i refs

    second : Binds objects (stride_one o) input.refs output
    second = binding_get-Binds objects o input.refs
