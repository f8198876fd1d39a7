-- ===== src/Cpplint.antt =====
-- cpplint.py: the style checker that check.sh runs over the C++ sources. Modelled are the parts that
-- keep state and scan texts; the checks themselves, which are regular expressions, are not.
pub mod IncludeState
pub mod LintState
pub mod Expression
pub mod Comments
pub mod FunctionState
mod Tests
