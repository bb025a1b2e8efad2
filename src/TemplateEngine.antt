-- ===== src/TemplateEngine.antt =====
-- internal/handlers/template_engine.go: the chatbot's template language.
pub mod Path
pub mod Condition
pub mod Pattern
pub mod Render
pub mod Lookup
pub mod Conditionals
pub mod Compare
mod Samples
