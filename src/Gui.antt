-- ===== src/Gui.antt =====
-- gui: the web interface. Flow: the tab of gui/app.py in which a mapping is reviewed and edited.
pub mod Flow
pub mod Prompt
