-- ===== src/Explainability.antt =====
-- libs/sentinel/explainability: the words that explain a decision, outside the control loop.
pub mod Generator
pub mod Agent
pub mod Texts
pub mod Narration
pub mod Counterfactual
