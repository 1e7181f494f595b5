-- ===== src/Interpreter/Send.antt =====
-- Signals, sends and resends (interpreter_signal, send_to_through_arity_with_optionals and
-- interpreter_resend_message in src/vm/interpreter.cpp), as built without the lookup in polymorphic
-- inline caches. A call of a primitive is a result.
use slate_language.Common.{ℕ, ◌+◌, ◌||◌, Option, none, some, List, [], ◌∷◌, ◌==◌, if◌then◌else◌}
use slate_language.Dispatch.{def_method}
use slate_language.Dispatch.Visit.{Call, Dispatched, method_dispatch_on}
use slate_language.Interpreter.{Machine, Outcome, done, signalled, exited, stack_get, stored_into}
use slate_language.Interpreter.Apply.{
  array_with, interpreter_apply_to_arity_with_optionals, traits_window,
}
use slate_language.Memory.{Memory}
use slate_language.MethodCache.{MethodCache}
use slate_language.Word.{object_to_smallint}

-- The machine with the state of the dispatch. The signals that a send may lead to, the window of
-- primitives and the keyword for optionals are special objects.
pub record Vm : Type 0 where
  pub machine : Machine
  pub cache : MethodCache
  pub current_dispatch_id : ℕ
  pub smallint_proto : ℕ
  pub not_found_on : ℕ
  pub apply_to : ℕ
  pub optionals : ℕ
  pub primitive_method_window : ℕ

-- What a send leads to.
pub data Sent : Type 0 where
  sent : Vm → Outcome → Sent
  calls_primitive : Vm → ℕ → List ℕ → List ℕ → ℕ → Sent
  unhandled : ℕ → List ℕ → Sent

abbrev pub with_machine : Vm → Machine → Vm
with_machine v s = record v { machine = s }

unfoldable pub dispatched : ℕ → Vm → ℕ → ℕ → List ℕ → Option (Vm × Dispatched)
dispatched fuel v selector resend args =
    let s = v.machine in
    let call : Call = record {
      name = selector;
      resend = resend;
      nil = s.heap.nil;
      smallint_proto = v.smallint_proto;
    } in
    elim (method_dispatch_on fuel call
      (record { mem = s.heap.mem; cache = v.cache; current_dispatch_id = v.current_dispatch_id })
      args) [
        | none ↦ none
        | some d ↦ some (
          record v {
            machine = record s { heap = record s.heap { mem = d.state.mem } };
            cache = d.state.cache;
            current_dispatch_id = d.state.current_dispatch_id;
          },
          d,
        )
      ]

-- The machine of an outcome.
abbrev pub applied : Vm → Option Outcome → Option Sent
applied v none = none
applied v (some (done s)) = some (sent (with_machine v s) (done s))
applied v (some (signalled s x xs r)) = some (sent (with_machine v s) (signalled s x xs r))
applied v (some exited) = some (sent v exited)

-- A signal without a method ends the program.
unfoldable pub interpreter_signal : ℕ → Vm → ℕ → List ℕ → List ℕ → ℕ → Option Sent
unfolding dispatched
interpreter_signal fuel v signal args opts result = elim (dispatched fuel v signal 0 args) [
  | none ↦ none
  | some (v', d) ↦ elim d.method [
    | none ↦ some (unhandled signal args)
    | some def ↦ applied v' (
        interpreter_apply_to_arity_with_optionals v'.machine (def_method d.state.mem def) d.args
          opts result)
  ]
]

-- The optionals in an array, behind their keyword.
unfoldable pub nested_optionals : Vm → List ℕ → Option (Vm × List ℕ)
nested_optionals v [] = some (v, [])
nested_optionals v (x ∷ xs) = elim (array_with v.machine (x ∷ xs)) [
  | none ↦ none
  | some (s, array) ↦ some (with_machine v s, v.optionals ∷ array ∷ [])
]

-- A signal with an object and the array of the arguments.
unfoldable pub signal_with_array : ℕ → Vm → ℕ → ℕ → List ℕ → List ℕ → List ℕ → ℕ → Option Sent
unfolding nested_optionals
signal_with_array fuel v signal object args more opts result = elim (array_with v.machine args) [
  | none ↦ none
  | some (s, array) ↦ elim (nested_optionals (with_machine v s) opts) [
    | none ↦ none
    | some (v', nested) ↦ interpreter_signal fuel v' signal (object ∷ array ∷ more) nested result
  ]
]

-- The same with the optionals as they are.
unfoldable pub signal_apply_to : ℕ → Vm → ℕ → List ℕ → List ℕ → ℕ → Option Sent
signal_apply_to fuel v method args opts result = elim (array_with v.machine args) [
  | none ↦ none
  | some (s, array) ↦
      interpreter_signal fuel (with_machine v s) v.apply_to (method ∷ array ∷ []) opts result
]

-- `heap_store_into_stack`, where the stack is the one from before. A signal is still to be handled.
unfoldable pub barrier_result : ℕ → ℕ → Sent → Sent
barrier_result old_stack result (sent v (done s)) =
    let stored = stored_into s s.i.stack (stack_get s result) in
    if old_stack == s.i.stack then sent (with_machine v stored) (done stored) else sent v (done s)
barrier_result old_stack result other = other

-- The index of a primitive method.
abbrev pub primitive_index : Memory → ℕ → ℕ
primitive_index m method = object_to_smallint (m (method + 32))

abbrev pub then_barrier : ℕ → ℕ → Option Sent → Option Sent
then_barrier old_stack result none = none
then_barrier old_stack result (some x) = some (barrier_result old_stack result x)

-- `args` is none where the arguments are the array of the dispatchers, whose first one a dispatch
-- may change.
unfoldable pub send_to_through_arity_with_optionals :
    ℕ → Vm → ℕ → Option (List ℕ) → List ℕ → List ℕ → ℕ → Option Sent
unfolding signal_with_array barrier_result
send_to_through_arity_with_optionals fuel v selector args dispatchers opts result =
    elim (dispatched fuel v selector 0 dispatchers) [
      | none ↦ none
      | some (v', d) ↦
          let passed = elim args as (λ _. List ℕ) [ none ↦ d.args | some xs ↦ xs ] in
          let s = v'.machine in
          elim d.method [
            | none ↦ signal_with_array fuel v' v.not_found_on selector d.args [] opts result
            | some def ↦
                let method = def_method d.state.mem def in
                let window = traits_window s.heap.mem method in
                if window == v.primitive_method_window
                then some
                    (calls_primitive v' (primitive_index s.heap.mem method) passed opts result)
                else if window == s.cached.compiled_method_window
                    || window == s.cached.closure_method_window
                then then_barrier s.i.stack result (
                    applied v'
                      (interpreter_apply_to_arity_with_optionals s method passed opts result))
                else then_barrier s.i.stack result
                    (signal_with_array fuel v' v.apply_to method d.args [] opts result)
          ]
    ]
