-- ===== src/Tests/Calling.antt =====
-- A closure at 1000 whose method at 4000 has one input and two variables, on a stack at 10000 of
-- 100 places.
use slate_language.Common.{◌≡◌, refl, true, false, [], some, arith, if◌then◌else◌, ◌==◌}
use slate_language.Interpreter.{
  Machine, done, pushed, interpreter_stack_push, interpreter_stack_pop,
}
use slate_language.Interpreter.Calls.{Returned, interpreter_return_result_lem}
use slate_language.Interpreter.Growth.{push-pop, with_top}
use slate_language.Interpreter.Return.{interpreter_return_result}
use slate_language.Memory.{Memory}
use slate_language.Tests.Marking.{idle}
use slate_language.Word.{object_to_smallint}

abbrev calling : Memory
calling a =
    if a == 1024
    then 2000
    else if a == 1032
    then 4000
    else if a == 2048
    then 3000
    else if a == 3032
    then 77
    else if a == 4048
    then 3
    else if a == 4056
    then 5
    else if a == 4160
    then 16
    else if a == 4168
    then 1
    else 0

abbrev pub machine : Machine
machine = record {
  heap = record {
    mem = calling;
    mark_color = 0;
    memory_old = 8;
    memory_young = 100000;
    memory_old_size = 90000;
    memory_young_size = 1000;
    memory_old_limit = 95000;
    special_objects_oop = 16;
    last_hash = 0;
    next_free = 100000;
    next_old_free = 8;
    mark_stack = [];
    mark_stack_size = 0;
    remembered = [];
    tenured = [];
    do_full_gc_next = false;
    interpreter = 500;
    nil = 16;
    profiler = idle;
  };
  cached = record {
    true_object = 24;
    false_object = 32;
    compiled_method_window = 77;
    closure_method_window = 78;
    array_proto = 600;
    lexical_context_proto = 700;
    closure_proto = 800;
    ensure_marker = 900;
    smallint_map = 950;
  };
  clock = 0;
  automatically_inline = true;
  i = record {
    stack = 10000;
    method = 5000;
    closure = 5000;
    lexical_context = 16;
    ensure_handlers = 1;
    frame_pointer = 6;
    code_pointer = 3;
    code_size = 9;
    stack_pointer = 20;
    stack_size = 100;
  };
}

-- A frame at 26, whose caller's is at 6.
abbrev framed : Machine
framed = record machine {
  heap = record machine.heap {
    mem = λ a.
        if a == 10192
        then 41
        else if a == 10200
        then 21
        else if a == 10208
        then 7
        else if a == 10232
        then 13
        else 0;
  };
  i = record machine.i { frame_pointer = 26; stack_pointer = 30 };
}

interpreter_return_result_lem_example :
    (t : Machine) × ((interpreter_return_result framed 0 (some 43) 7 ≡ some (done t))
      × Returned framed t 43 20 10 3 6)
unfolding object_to_smallint
interpreter_return_result_lem_example =
    interpreter_return_result_lem framed 43 7 20 10 3 6
      (record {
        at_before_call = refl;
        at_result = refl;
        at_code_pointer = refl;
        at_caller = refl;
        inside = omega arith;
        below = omega arith;
        apart = omega arith;
      })
      refl (omega arith)

push-pop_example :
    interpreter_stack_pop (pushed machine 9) ≡ some (with_top (pushed machine 9) 20, 9)
unfolding interpreter_stack_push
push-pop_example = push-pop machine 9 (pushed machine 9) refl
