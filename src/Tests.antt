-- ===== src/Tests.antt =====
-- The theorems at concrete inputs, and runs of the model.
mod Allowed
mod Asking
mod Checked
mod Corpus
mod Inputs
mod Panels
mod Prewarmed
mod Printing
mod Reusing
mod Running
mod Written
