-- ===== src/Tests.antt =====
-- Runs of the models on small inputs, and the theorems at such inputs.
mod Queue
mod Caller
mod Logger
mod Signals
mod Buffer
mod Stack
mod Set
mod Cache
mod Counter
mod Digraph
mod Algorithm
mod Config
mod Tokenizer
mod Selector
mod Selection
mod Caches
mod PrrThreaded
mod Numeric
