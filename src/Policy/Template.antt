-- ===== src/Policy/Template.antt =====
-- The template of a policy: `parse_str_to_template_tokens` of rust/src/lib/policy/token.rs (Token),
-- and rust/src/lib/policy/template.rs, which puts captured data in place of references.
pub mod Token
pub mod Resolve
