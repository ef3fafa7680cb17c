-- ===== src/Samples/Witnesses.antt =====
-- Each theorem at work on the sample world.
mod Answers
mod Studio
