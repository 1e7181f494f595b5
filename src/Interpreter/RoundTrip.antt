-- ===== src/Interpreter/RoundTrip.antt =====
-- A call and the return from it (interpreter_apply_to_arity_with_optionals and
-- interpreter_return_result in src/vm/interpreter.cpp).
